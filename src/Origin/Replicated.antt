-- ===== src/Origin/Replicated.antt =====
-- What a source named for a value stands on, computeOrigins of
-- tools/helmprov/cmd/helmprov/origin.go.
use cartograph_nvim.Base.{Text, ◌≡◌, sym, ap, ◌∙◌, List, [], some, inl, inr, arith}
use cartograph_nvim.Tpl.Host.{lookup_key}
use cartograph_nvim.Origin.Tables.{Table}
use cartograph_nvim.Origin.Canon.{Helm}
use cartograph_nvim.Origin.Compute.{compute_origins}
use cartograph_nvim.Origin.Stages.{IsReplicated, compute_stages}

-- A source is named for a value only if the unmarked pipeline runs and its effective values have,
-- path by path, the canonical leaves of the values that Helm computed.
pub compute-IsReplicated :
    {X : Type 0} (p : Helm X) (dir : Text) (files sets : List Text) (real : Table X) (path s : Text)
    → lookup_key path (compute_origins p dir files sets real).origin ≡ some s
    → IsReplicated p dir files sets real
unfolding lookup_key
compute-IsReplicated p dir files sets real path s e = elim (compute_stages p dir files sets real) [
  | inl (z, bare) ↦
      let b : lookup_key path [] ≡ some s = sym (ap (λ x. lookup_key path x) z) ∙ e in ground arith
  | inr (defs, recorded, rep, same) ↦ rep
]
