-- ===== src/Tpl/Noting/Taken.antt =====
-- A recorder that does not explore marks nothing untaken, recordRead, arm and explore of
-- tools/helmprov/tpl/prov.go.
use cartograph_nvim.Base.{Text, false, ◌≡◌, refl, ap, List, [], ◌∷◌, ◌++◌, arith}
use cartograph_nvim.Tpl.Record.{Recorder, Read}
use cartograph_nvim.Tpl.Prov.{read_of}
use cartograph_nvim.Tpl.Brackets.{explores, pop_guard}
use cartograph_nvim.Tpl.Noting.{RecorderLaws}

-- No read of the list is marked untaken.
abbrev pub AllTaken : List Read → Type 0
AllTaken [] = Unit {0}
AllTaken (r ∷ rs) = (r.untaken ≡ false) × AllTaken rs

-- Arms are not explored, no guard is open, no read is marked untaken and no arm is noted.
abbrev pub IsPlainRecorder : Recorder → Type 0
IsPlainRecorder r = (r.branches ≡ false) × (r.guards ≡ []) × AllTaken r.reads × (r.arms ≡ [])

AllTaken-append :
    (rs : List Read) (r : Read) → AllTaken rs → r.untaken ≡ false → AllTaken (rs ++ r ∷ [])
AllTaken-append [] r a e = (e, tt)
AllTaken-append (q ∷ rs) r (f, a) e = (f, AllTaken-append rs r a e)

read_of-untaken :
    (path place : Text) (r : Recorder) → r.guards ≡ [] → (read_of path place r).untaken ≡ false
unfolding read_of
read_of-untaken path place r e = rw e refl

pub taken_laws : RecorderLaws IsPlainRecorder
unfolding explores
taken_laws = record {
  reads = λ r path place p.
      let (b, g, t, a) = p in
      (b, g, AllTaken-append r.reads (read_of path place r) t (read_of-untaken path place r g), a);
  dots = λ r l t p. p;
  arms = λ r note c e p. let (b, g, t, a) = p in ground arith;
  depth = λ r n p. p;
  files = λ r fs p. p;
  entered = λ r guard c p. let (b, g, t, a) = p in ground arith;
  left = λ r p. let (b, g, t, a) = p in (b, ap pop_guard g, t, a);
  explored = λ r e p. p;
}
