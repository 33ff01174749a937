-- ===== src/Tpl/Tiling/Spans.antt =====
-- Spans in order that leave no gap, and the worlds in which the spans of the file do that.
use cartograph_nvim.Base.{
  ℕ, ◌+◌, ◌≤◌, Text, false, ◌≡◌, refl, sym, ap, inl, inr, none, some, Option, List, [], ◌∷◌, ◌++◌,
  arith, length, is_some, Option-cases,
}
use cartograph_nvim.Base.TextLaws.{length-append}
use mathlib.Core.Path.{subst}
use cartograph_nvim.Tpl.Record.{Span}
use cartograph_nvim.Tpl.World.{World}
use cartograph_nvim.Tpl.Prov.{is_symbolic}
use cartograph_nvim.Tpl.Brackets.{write, close_span}

-- The spans begin at `a`, each where the one before it ends, and end at `b`.
abbrev pub Tiles : ℕ → List Span → ℕ → Type 0
Tiles a [] b = a ≡ b
Tiles a (s ∷ ss) b = (s.start ≡ a) × (a ≤ s.stop) × Tiles s.stop ss b

pub Tiles-append :
    (a b : ℕ) (ss : List Span) (s : Span)
    → Tiles a ss b
    → s.start ≡ b
    → b ≤ s.stop
    → Tiles a (ss ++ s ∷ []) s.stop
Tiles-append a b [] s p e q = (omega arith, omega arith, refl)
Tiles-append a b (x ∷ ss) s (p, q, r) e k = (p, q, Tiles-append x.stop b ss s r e k)

-- Where bytes are counted, the count is that of the output, and the spans tile it.
abbrev pub IsTiled : World → Type 0
IsTiled w = (n : ℕ) → w.trace.count ≡ some n → (n ≡ length w.out) × Tiles 0 w.trace.spans n

abbrev pub cur_start : Option Span → Option ℕ
cur_start none = none
cur_start (some s) = some s.start

-- What an evaluation leaves alone.
pub record Still (w w' : World) : Type 0 where
  pub cur : cur_start w'.trace.cur ≡ cur_start w.trace.cur
  pub out : w'.out ≡ w.out
  pub count : w'.trace.count ≡ w.trace.count
  pub spans : w'.trace.spans ≡ w.trace.spans
  pub rec : is_some w'.trace.rec ≡ is_some w.trace.rec
  pub concrete : is_symbolic w'.trace ≡ false

-- What a walk does: it keeps the tiling, and writes no span where nothing is counted.
pub record Tiling (w w' : World) : Type 0 where
  pub counts : is_some w'.trace.count ≡ is_some w.trace.count
  pub uncounted : is_some w.trace.count ≡ false → w'.trace.spans ≡ w.trace.spans
  pub rec : is_some w'.trace.rec ≡ is_some w.trace.rec
  pub concrete : is_symbolic w'.trace ≡ false
  pub tiled : IsTiled w → IsTiled w'

pub Still-refl : (w : World) → is_symbolic w.trace ≡ false → Still w w
Still-refl w c = record {
  cur = refl;
  out = refl;
  count = refl;
  spans = refl;
  rec = refl;
  concrete = c;
}

pub Still-trans : (u v w : World) → Still u v → Still v w → Still u w
Still-trans u v w p q = record {
  cur = cc (p.cur, q.cur);
  out = cc (p.out, q.out);
  count = cc (p.count, q.count);
  spans = cc (p.spans, q.spans);
  rec = cc (p.rec, q.rec);
  concrete = q.concrete;
}

pub Tiling-refl : (w : World) → is_symbolic w.trace ≡ false → Tiling w w
Tiling-refl w c = record {
  counts = refl;
  uncounted = λ e. refl;
  rec = refl;
  concrete = c;
  tiled = λ t. t;
}

pub Tiling-trans : (u v w : World) → Tiling u v → Tiling v w → Tiling u w
Tiling-trans u v w p q = record {
  counts = cc (p.counts, q.counts);
  uncounted = λ e. let a = p.uncounted e in let b = q.uncounted (cc (p.counts, e)) in cc (a, b);
  rec = cc (p.rec, q.rec);
  concrete = q.concrete;
  tiled = λ t. q.tiled (p.tiled t);
}

-- A step that leaves output, count and spans alone.
pub same-Tiling :
    (w w' : World)
    → w'.out ≡ w.out
    → w'.trace.count ≡ w.trace.count
    → w'.trace.spans ≡ w.trace.spans
    → is_some w'.trace.rec ≡ is_some w.trace.rec
    → is_symbolic w'.trace ≡ false
    → Tiling w w'
same-Tiling w w' out count spans rec c = record {
  counts = ap is_some count;
  uncounted = λ e. spans;
  rec = rec;
  concrete = c;
  tiled = λ t n e. let (p, q) = t n (cc (count, e)) in (cc (p, ap length out), rw spans q);
}

pub Tiling-Still : (w w' : World) → Still w w' → Tiling w w'
Tiling-Still w w' s = same-Tiling w w' s.out s.count s.spans s.rec s.concrete

-- The world after writing a text and closing a span over it.
abbrev pub closed_over : Text → Span → ℕ → World → World
closed_over text s n w = record w {
  out = w.out ++ text;
  trace = record w.trace {
    count = some (n + length text);
    spans = w.trace.spans ++ record s { stop = n + length text } ∷ [];
  };
}

pub close_span-write :
    (w : World) (text : Text) (s : Span) (n : ℕ)
    → w.trace.count ≡ some n
    → close_span s (write text w) ≡ closed_over text s n w
unfolding close_span write
close_span-write w text s n e = ground arith

pub closed_over-IsTiled :
    (w : World) (text : Text) (s : Span) (n : ℕ)
    → w.trace.count ≡ some n
    → s.start ≡ n
    → IsTiled w
    → IsTiled (closed_over text s n w)
closed_over-IsTiled w text s n e p t m k =
    let (l, tiles) = t n e in
    let same : n + length text ≡ m = cc in
    let end : Span = record s { stop = n + length text } in
    (
      omega (arith, length-append w.out text),
      subst (λ b. Tiles 0 (w.trace.spans ++ end ∷ []) b) same
          (Tiles-append 0 n w.trace.spans end tiles p (omega arith)),
    )

-- A write where nothing is counted.
uncounted-Tiling :
    (w : World) (text : Text) (s : Span)
    → is_symbolic w.trace ≡ false
    → w.trace.count ≡ none
    → Tiling w (close_span s (write text w))
unfolding close_span write
uncounted-Tiling w text s c e = record {
  counts = ground arith;
  uncounted = λ k. ground arith;
  rec = ground arith;
  concrete = unfold is_symbolic in ground arith;
  tiled = λ t m k. ground arith;
}

-- A text that is written with a span from the count on keeps the tiling.
pub write-Tiling :
    (w : World) (text : Text) (s : Span)
    → is_symbolic w.trace ≡ false
    → ((n : ℕ) → w.trace.count ≡ some n → s.start ≡ n)
    → Tiling w (close_span s (write text w))
write-Tiling w text s c start = elim (Option-cases w.trace.count) [
  | inl e ↦ uncounted-Tiling w text s c e
  | inr (n, e) ↦ rw (close_span-write w text s n e) (record {
    counts = ap is_some (sym e);
    uncounted = λ k. cc (ap is_some e);
    rec = refl;
    concrete = unfold is_symbolic in c;
    tiled = closed_over-IsTiled w text s n e (start n e);
  })
]
