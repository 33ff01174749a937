-- ===== src/Tpl/Variables.antt =====
-- The variable stack of an execution, `setVar` and `varValue` of tools/helmprov/tpl/exec.go.
use cartograph_nvim.Base.{Text, text_eq, true, false, ◌++◌, ap, ◌∙◌, ◌≡◌, refl, some, List, [], ◌∷◌}
use cartograph_nvim.Tpl.Value.{Value}
use cartograph_nvim.Tpl.Host.{Host}
use cartograph_nvim.Tpl.World.{Variable, World, ok, ◌>>=◌, inner, update}
use cartograph_nvim.Tpl.State.{find_var, replace_var, set_var}

-- No variable of the list has the name.
abbrev pub IsAbsent : Text → List Variable → Type 0
IsAbsent name [] = Unit {0}
IsAbsent name (x ∷ vars) = (text_eq x.name name ≡ false) × IsAbsent name vars

replace-append :
    (name : Text) (v : Value) (above : List Variable) (x : Variable) (below : List Variable)
    → IsAbsent name above
    → text_eq x.name name ≡ true
    → replace_var name v (above ++ (x ∷ below))
      ≡ above ++ (record { name = x.name; value = v } ∷ below)
unfolding replace_var
replace-append name v [] x below a e = rw e refl
replace-append name v (y ∷ above) x below (n, a) e =
    rw n (ap (λ vars. y ∷ vars) (replace-append name v above x below a e))

find-append :
    (name : Text) (above : List Variable) (x : Variable) (below : List Variable)
    → IsAbsent name above
    → text_eq x.name name ≡ true
    → find_var name (above ++ (x ∷ below)) ≡ some x.value
unfolding find_var
find-append name [] x below a e = rw e refl
find-append name (y ∷ above) x below (n, a) e = rw n (find-append name above x below a e)

-- An assignment to a declared variable succeeds. It gives the value to the topmost variable of the name
-- and changes nothing else: neither the variables above it, nor those below it, of the same name too,
-- nor the rest of the world.
pub set_var_topmost :
    (h : Host) (name : Text) (v : Value) (w : World) (above : List Variable) (x : Variable)
    (below : List Variable)
    → w.inner.vars ≡ above ++ (x ∷ below)
    → IsAbsent name above
    → text_eq x.name name ≡ true
    → set_var h name v w ≡ (
      ok tt,
      record w {
        inner = record w.inner { vars = above ++ (record { name = x.name; value = v } ∷ below) };
      },
    )
unfolding set_var inner update ◌>>=◌
set_var_topmost h name v w above x below s a e =
    let found : find_var name w.inner.vars ≡ some x.value =
      ap (find_var name) s ∙ find-append name above x below a e in
    let vars : replace_var name v w.inner.vars
        ≡ above ++ (record { name = x.name; value = v } ∷ below) =
      ap (replace_var name v) s ∙ replace-append name v above x below a e in
    rw found (ap (λ r. (ok tt, record w { inner = record w.inner { vars = r } })) vars)
