-- ===== src/Tpl/Run.antt =====
-- The knot: with each call one level of fuel is spent.
use cartograph_nvim.Base.{ℕ, zero, suc, Text, Option}
use cartograph_nvim.Tpl.Value.{Value}
use cartograph_nvim.Tpl.Host.{Host, Template}
use cartograph_nvim.Tpl.World.{M, raise, out_of_fuel}
use cartograph_nvim.Tpl.Calls.{Calls}
use cartograph_nvim.Tpl.Call
use cartograph_nvim.Tpl.Eval
use cartograph_nvim.Tpl.Walk

unfoldable pub step : Host → Calls → Calls
step h c = record {
  walk = Walk.walk h c;
  eval_pipeline = Eval.eval_pipeline h c;
  eval_arg = Eval.eval_arg h c;
}

unfoldable pub calls : Host → ℕ → Calls
calls h zero = record {
  walk = λ dot n. raise out_of_fuel;
  eval_pipeline = λ dot p. raise out_of_fuel;
  eval_arg = λ dot t n. raise out_of_fuel;
}
calls h (suc fuel) = step h (calls h fuel)

-- Execute of a template: the text that it wrote and its error.
unfoldable pub execute : Host → ℕ → Template → Value → M (Text × Option Text)
execute h fuel t v = Call.execute h (calls h fuel) t v
