-- ===== src/Lib.antt =====
-- The Malachite scripting language: its virtual machine, its linker, and the object files of its
-- compiler.
--
-- The repository has a compiler (MSLC), a linker (MSLL), the virtual machine (MSLVM) and a viewer of
-- its files (MSLDescriptor). The compiler writes a main object file and one code object file for each
-- module; the linker reads them, translates the byte commands into operations of the machine and
-- writes an executable; the machine, a register machine that runs 32-byte operations over one block
-- of memory, loads and runs it.
--
-- Parts of MSLVM, and the files of MSLVM that they follow:
--   Vm.Definitions, Vm.SpecialRegister, Vm.Flag  include/mslvm/vm_definitions.hpp: constants,
--     operation codes, VMOperation, registers and flags. A Register is its 64-bit word.
--   Vm.Errors       include/mslvm/vm_errors.hpp: ErrorCode, ErrorType, ErrorsMap, ErrorFrame.
--   Vm.Stack        include/mslvm/vm_stack.hpp: VMStack, an array and its top.
--   Vm.LinkedList   include/mslvm/vm_linked_list.hpp: the methods that the free list uses; a chain
--     of nodes is the list of its items, and a node is its place in it.
--   Vm.Interval, Vm.Heap  include/mslvm/vm_memory.hpp and source/memory/vm_memory.cpp:
--     HeapFreeInterval and HeapFreeIntervals. The unordered map by size is a function from sizes.
--   Vm.Memory       the same two files: DynamicMemory, with what each memcpy, memset or index may
--     touch written out.
--   Vm.State        include/mslvm/vm_types.hpp: VMState and Raise, and what the machine prints.
--   Vm.Instruction  source/execution/vm_execution.cpp: the cases of execute_code_switch, by kind
--     (Arithmetic, Logic, Compare, Access, Blocks, Control, Calls).
--   Vm.Execution    the same file: the switch, a round, the loop, clear_vm_state.
--   Vm.Script       source/api/virtual_machine.cpp: VirtualMachine::LoadScript.
--
-- Parts of MSLL, and the files of MSLL that they follow:
--   Linker.OpCode, Linker.Definitions  include/ObjectsReading/LinkDefinitions.hpp: ByteOpCode,
--     ByteCommand, symbols, constants, LinkingState; OpCodeTable of
--     include/Translators/MSLVM_1/MSLVM_1Common.hpp, whose other types are those of MSLVM again.
--   Linker.Objects  source/ObjectsReading/ObjectsReader.cpp: DeserializeMO; Code: DeserializeCO.
--   Linker.Translator  source/Translators/MSLVM_1/MSLVM_1Translator.cpp: HandleCommand; Arguments:
--     its `checking`; Comparing, Flow, Storage: HandleCOMP, HandleCF, HandleMR; HandleAL and HandleSP
--     stand with HandleCommand. TwoPass is the independent description, Run and Compared the machine
--     that runs what was emitted.
--   Linker.Image    the same file: HandleModule and Translate; ReadOnlyData: the constants; Code: the
--     operations as bytes; Compiled: HandleModule on a file of the compiler.
--   Linker.Writer   source/ECWriting/ExecutableCodeWriter.cpp: SaveAsMSLI.
--   Linker          source/Linker.cpp: Link.
--
-- Parts of MSLC, and the files of MSLC that they follow:
--   Compiler.ChunkArray  include/Definitions/ChunkArray.hpp: chunks are functions from indices.
--   Compiler.UnhandledSymbols  source/CompilationInfo/CompilationState.cpp: the numbers of
--     GlobalSymbolTable for the linker.
--   Compiler.Packer  source/Packing/Packer.cpp: ByterizeCommands; State: ByterizeCompilationState.
--   Buffer          what compiler and linker do to bytes in memory: WriteBytes, memcpy,
--     static_bpointer.
--
-- Prelude and Outcome have shared lemmas on bits, bytes and integers, and what C++ code does: it
-- returns, it throws, or the standard gives it no meaning. The Tests run the code on concrete input,
-- and hold instances of the theorems.
--
-- A run goes LoadScript, clear_vm_state, execute_code_switch. The loop reads an operation from the
-- memory, a case of the switch changes the state, and errors go to the error stack; ALLOCATE_MEMORY
-- and FREE_MEMORY ask the list of free blocks, and the accesses check their interval first. A link
-- goes ReadFile, DeserializeMO, Translate, which handles the modules in their order, and SaveAsMSLI.
-- Jumps to labels that are not placed yet wait in except_handling_jmps and are patched by JMP_LABEL.
--
-- Numbers are natural numbers below 2 ^ 64 with every wrap-around written out; signed operations
-- read them in two's complement, and an overflow has no meaning. The loop takes the number of
-- rounds as fuel, since a program need not end: the result says whether they were enough, and what
-- is stated of runs that end holds for every number of rounds in which they do. FindFitBlock is
-- bounded by the largest block size, as in the code, below 2 ^ 64 - 1. The reading loops of the
-- linker take as many rounds as the file has bytes and one more: each reads at least two bytes.
--
-- Parameters: what malloc gives (Memory.allocate, TransferData), the files that LoadScript and the
-- linker open, the padding bytes of an operation, the elements of a new chunk, and the arithmetic of
-- double (Vm.Reals), which is the processor's. calloc of the compiler and the linker gives memory.
--
-- Not modelled: DencreaseHeap (empty) and VMConfig (unused); the cursor and the pointers of LinkedList;
-- blocks that are leaked, since nothing observes them; messages; the look up of a symbol by the Packer,
-- which follows a null pointer where the tables do not have it: it gets the symbols looked up; the other
-- phases of the compiler (lexer, preprocessor, syntax tree, pseudo code, byte code, the rest of the
-- compilation state), which are left for later; the viewer, which only prints.
pub mod Prelude
pub mod Outcome
pub mod Buffer
pub mod Vm
pub mod Linker
pub mod Compiler
