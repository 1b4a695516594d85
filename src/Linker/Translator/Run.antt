-- ===== src/Linker/Translator/Run.antt =====
-- Operations executed by the machine one after another: what the switch of MSLVM does with them.
use malachite_scripting_lang.Prelude.{List, [], ◌∷◌}
use malachite_scripting_lang.Outcome.{Outcome, ok, ◌>>=◌}
use malachite_scripting_lang.Vm.Definitions.{VmOperation}
use malachite_scripting_lang.Vm.Reals.{Reals}
use malachite_scripting_lang.Vm.State.{VmState}
use malachite_scripting_lang.Vm.Execution.{execute_operation}

unfoldable pub run : Reals → List VmOperation → VmState → Outcome VmState
unfolding execute_operation
run reals [] s = ok s
run reals (o ∷ os) s = execute_operation reals o.code o s >>= run reals os
