-- ===== src/Compiler/Packer/CommandFields.antt =====
-- The fields of one command, written by the compiler and read by the linker.
use malachite_scripting_lang.Prelude.{◌^◌, ◌<◌, ◌≡◌, refl, arith}
use malachite_scripting_lang.Outcome.{ok}
use malachite_scripting_lang.Buffer.Fields.{total, words, Fit}
use malachite_scripting_lang.Linker.OpCode.{IsListed, byte_op_code-value, value-lt}
use malachite_scripting_lang.Linker.Definitions.{CommandSource, CommandArgument, ByteCommand}
use malachite_scripting_lang.Linker.Objects.Code.{command_source, command_of}
use malachite_scripting_lang.Compiler.Packer.{source_value, command_fields}

-- An enumerator, and not another byte.
abbrev pub IsSource : CommandSource → Type 0
IsSource (CommandSource.other byte) = ⊥
IsSource _ = Unit

-- What the C++ types of the fields allow.
pub record IsArgument (a : CommandArgument) : Type 0 where
  pub source : IsSource a.type
  pub word : a.data_word < 2 ^ 64

pub record IsCommand (c : ByteCommand) : Type 0 where
  pub listed : IsListed c.code
  pub first : IsArgument c.arg0
  pub second : IsArgument c.arg1
  pub third : IsArgument c.arg2
  pub flags_fit : c.flags < 2 ^ 32
  pub line_fits : c.source_line < 2 ^ 32

command_source-value : (s : CommandSource) → IsSource s → command_source (source_value s) ≡ s
unfolding command_source source_value
command_source-value (CommandSource.other byte) h = elim h [ ]
command_source-value _ h = refl

source_value-lt : (s : CommandSource) → IsSource s → source_value s < 256
unfolding source_value
source_value-lt (CommandSource.other byte) h = elim h [ ]
source_value-lt _ h = omega arith

pub command_fields-Fit : (c : ByteCommand) → IsCommand c → Fit (command_fields c)
unfolding command_fields
command_fields-Fit c h = (
  value-lt c.code h.listed,
  (
    source_value-lt c.arg0.type h.first.source,
    (
      h.first.word,
      (
        source_value-lt c.arg1.type h.second.source,
        (
          h.second.word,
          (
            source_value-lt c.arg2.type h.third.source,
            (h.third.word, (h.flags_fit, (h.line_fits, tt))),
          ),
        ),
      ),
    ),
  ),
)

pub command_of-fields :
    (c : ByteCommand) → IsCommand c → command_of (words (command_fields c)) ≡ ok c
unfolding command_of command_fields
command_of-fields c h =
    rw
      (
        byte_op_code-value c.code h.listed,
        command_source-value c.arg0.type h.first.source,
        command_source-value c.arg1.type h.second.source,
        command_source-value c.arg2.type h.third.source,
      )
      refl

pub total-fields : (c : ByteCommand) → total (command_fields c) ≡ 36
unfolding command_fields
total-fields c = refl
