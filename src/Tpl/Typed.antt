-- ===== src/Tpl/Typed.antt =====
-- What validateType lets through fits the type asked for, tools/helmprov/tpl/exec.go.
use cartograph_nvim.Base.{
  Text, Bool, true, false, not, ◌&&◌, ◌≡◌, refl, sym, Option, none, some, inl, inr, ◌⊎◌,
  if◌then◌else◌, arith,
}
use mathlib.Core.Path.{subst}
use cartograph_nvim.Tpl.Value.{Typ, Value, is_valid, can_be_nil, zero_of, type_of}
use cartograph_nvim.Tpl.Host.{Host}
use cartograph_nvim.Tpl.World.{
  World, Result, ok, panics, Panic, M, continue, on_option, pure, raise, ◌>>=◌, update, inner,
}
use cartograph_nvim.Tpl.State.{errorf}
use cartograph_nvim.Tpl.Prov.{symbolic}
use cartograph_nvim.Tpl.Calls.{
  is_value_type, indirect_once, convert, check_type, hit, validate_type,
}

-- The value has the type or may be assigned to it.
abbrev pub Fits : Host → Typ → Value → Type 0
Fits h t v = (h.assignable (type_of v) t ≡ true) ⊎ (type_of v ≡ t)

-- Every value that a computation returns has a property.
abbrev pub Yields : {A : Type 0} → (A → Type 0) → M A → Type 0
Yields {A} P m = (w : World) (a : A) → (m w).0 ≡ ok a → P a

module _ {A : Type 0} (P : A → Type 0) where
  Yields-pure : (a : A) → P a → Yields P (pure a)
  unfolding pure
  Yields-pure a p w b e = let same : a ≡ b = ground arith in subst P same p

  Yields-raise : (q : Panic) → Yields P (raise q)
  unfolding raise
  Yields-raise q w a e = ground arith

  continue-Yields :
      {B : Type 0} (f : B → M A) (x : Result B × World) (a : A)
      → ((b : B) → Yields P (f b))
      → (continue f x.0 x.1).0 ≡ ok a
      → P a
  continue-Yields f (ok b, w) a p e = p b w a e
  continue-Yields f (panics q, w) a p e = ground arith

  Yields-bind :
      {B : Type 0} (m : M B) (f : B → M A) → ((b : B) → Yields P (f b)) → Yields P (m >>= f)
  unfolding ◌>>=◌
  Yields-bind m f p w a = continue-Yields f (m w) a p

  Yields-errorf : (h : Host) (msg : Text) → Yields P (errorf h msg)
  unfolding errorf
  Yields-errorf h msg = Yields-bind inner _ λ s. Yields-raise _

  Yields-if :
      (b : Bool) (m m' : M A)
      → (b ≡ true → Yields P m)
      → (b ≡ false → Yields P m')
      → Yields P (if b then m else m')
  Yields-if true m m' p q = p refl
  Yields-if false m m' p q = q refl

zero_type : (t : Typ) → type_of (zero_of t) ≡ t
unfolding type_of zero_of
zero_type Typ.t_bool = refl
zero_type Typ.t_int = refl
zero_type Typ.t_uint = refl
zero_type Typ.t_float = refl
zero_type Typ.t_complex = refl
zero_type Typ.t_string = refl
zero_type Typ.t_any = refl
zero_type Typ.t_value = refl
zero_type Typ.t_map = refl
zero_type Typ.t_slice = refl
zero_type Typ.t_sym = refl
zero_type Typ.t_missing = refl
zero_type (Typ.t_struct n) = refl
zero_type (Typ.t_pointer t) = refl

module _ (h : Host) where
  zero-Fits : (t : Typ) → Fits h t (zero_of t)
  zero-Fits t = inr (zero_type t)

  once-Yields : (v : Value) (t : Typ) → Yields (Fits h t) (indirect_once h v t)
  unfolding indirect_once
  once-Yields (Value.pointer v) t =
      Yields-if (Fits h t) (h.assignable (type_of v) t) _ _ (λ e. Yields-pure (Fits h t) v (inl e))
        λ e. Yields-errorf (Fits h t) h _
  once-Yields (Value.nil_pointer u) t =
      Yields-if (Fits h t) (h.assignable u t) _ _ (λ e. Yields-errorf (Fits h t) h _)
        λ e. Yields-errorf (Fits h t) h _
  once-Yields Value.invalid t = Yields-errorf (Fits h t) h _
  once-Yields Value.missing t = Yields-errorf (Fits h t) h _
  once-Yields Value.nil_interface t = Yields-errorf (Fits h t) h _
  once-Yields (Value.bool b) t = Yields-errorf (Fits h t) h _
  once-Yields (Value.int n) t = Yields-errorf (Fits h t) h _
  once-Yields (Value.uint n) t = Yields-errorf (Fits h t) h _
  once-Yields (Value.float n) t = Yields-errorf (Fits h t) h _
  once-Yields (Value.complex z) t = Yields-errorf (Fits h t) h _
  once-Yields (Value.str s) t = Yields-errorf (Fits h t) h _
  once-Yields (Value.map_of es) t = Yields-errorf (Fits h t) h _
  once-Yields (Value.slice vs) t = Yields-errorf (Fits h t) h _
  once-Yields (Value.sym y) t = Yields-errorf (Fits h t) h _
  once-Yields (Value.boxed v) t = Yields-errorf (Fits h t) h _
  once-Yields (Value.object n) t = Yields-errorf (Fits h t) h _
  once-Yields (Value.interface v) t = Yields-errorf (Fits h t) h _

  convert-Yields : (v : Value) (t : Typ) → Yields (Fits h t) (convert h v t)
  unfolding convert
  convert-Yields (Value.interface v) t =
      Yields-if (Fits h t) (h.assignable (type_of v) t) _ _ (λ e. Yields-pure (Fits h t) v (inl e))
        λ e. once-Yields v t
  convert-Yields Value.invalid t = once-Yields Value.invalid t
  convert-Yields Value.missing t = once-Yields Value.missing t
  convert-Yields Value.nil_interface t = once-Yields Value.nil_interface t
  convert-Yields (Value.bool b) t = once-Yields (Value.bool b) t
  convert-Yields (Value.int n) t = once-Yields (Value.int n) t
  convert-Yields (Value.uint n) t = once-Yields (Value.uint n) t
  convert-Yields (Value.float n) t = once-Yields (Value.float n) t
  convert-Yields (Value.complex z) t = once-Yields (Value.complex z) t
  convert-Yields (Value.str s) t = once-Yields (Value.str s) t
  convert-Yields (Value.map_of es) t = once-Yields (Value.map_of es) t
  convert-Yields (Value.slice vs) t = once-Yields (Value.slice vs) t
  convert-Yields (Value.sym y) t = once-Yields (Value.sym y) t
  convert-Yields (Value.boxed v) t = once-Yields (Value.boxed v) t
  convert-Yields (Value.object n) t = once-Yields (Value.object n) t
  convert-Yields (Value.pointer v) t = once-Yields (Value.pointer v) t
  convert-Yields (Value.nil_pointer u) t = once-Yields (Value.nil_pointer u) t

  value_type_lem : (t : Typ) → is_value_type t ≡ true → t ≡ Typ.t_value
  unfolding is_value_type
  value_type_lem Typ.t_value e = refl
  value_type_lem Typ.t_bool e = ground arith
  value_type_lem Typ.t_int e = ground arith
  value_type_lem Typ.t_uint e = ground arith
  value_type_lem Typ.t_float e = ground arith
  value_type_lem Typ.t_complex e = ground arith
  value_type_lem Typ.t_string e = ground arith
  value_type_lem Typ.t_any e = ground arith
  value_type_lem Typ.t_map e = ground arith
  value_type_lem Typ.t_slice e = ground arith
  value_type_lem Typ.t_sym e = ground arith
  value_type_lem Typ.t_missing e = ground arith
  value_type_lem (Typ.t_struct n) e = ground arith
  value_type_lem (Typ.t_pointer t) e = ground arith

  check-Yields : (v : Value) (t : Typ) → Yields (Fits h t) (check_type h v (some t))
  unfolding check_type
  check-Yields v t =
      let P = Fits h t in
      Yields-if P (not (is_valid v)) _ _
        (λ e.
          Yields-if P (can_be_nil t) _ _ (λ n. Yields-pure P (zero_of t) (zero-Fits t))
            λ n. Yields-errorf P h _)
        λ e.
          Yields-if P (is_value_type t && not (is_value_type (type_of v))) _ _
            (λ c.
              let boxed : is_value_type t ≡ true = ground arith in
              Yields-pure P (Value.boxed v) (inr (unfold type_of in sym (value_type_lem t boxed))))
            λ c.
              Yields-if P (h.assignable (type_of v) t) _ _ (λ a. Yields-pure P v (inl a))
                λ a. convert-Yields v t

  found-Yields :
      (v : Value) (t : Typ) (o : Option Typ)
      → ((u : Typ) → o ≡ some u → u ≡ t)
      → Yields (Fits h t) (
          on_option o
            (check_type h v (some t))
            λ u. update (λ s. record s { sym_hit = true }) >>= λ _. pure (zero_of u))
  found-Yields v t none e = check-Yields v t
  found-Yields v t (some u) e = Yields-bind (Fits h t) _ _ λ _.
      Yields-pure (Fits h t) (zero_of u)
        (subst (λ k. Fits h k (zero_of u)) (e u refl) (zero-Fits u))

  hit_lem :
      (b : Bool) (v : Value) (t u : Typ) → (if b then hit h v (some t) else none) ≡ some u → u ≡ t
  hit_lem b v t u e = ground arith

-- What validateType returns for a type fits the type, whatever the value is; in a symbolic render too,
-- where a placeholder in a typed slot becomes the zero value.
pub validate_type-Fits :
    (h : Host) (v : Value) (t : Typ) (w : World) (a : Value)
    → (validate_type h v (some t) w).0 ≡ ok a
    → Fits h t a
unfolding validate_type
validate_type-Fits h v t =
    Yields-bind (Fits h t) symbolic _
      λ b. found-Yields h v t (if b then hit h v (some t) else none) (hit_lem h b v t)
