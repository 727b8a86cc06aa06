-- ===== src/Lib.antt =====
-- object-introspection measures the memory that C++ objects use. It reads the types of a program
-- into a type graph, runs passes that bring the graph into a form from which code can be
-- generated, and reads back the data segment that the generated code writes. This library models
-- the graph, its passes, and the format of the data segment.
--
-- Types (oi/type_graph/Types.h, Types.cpp, oi/ContainerInfo.h, oi/ContainerTypeEnum.h) has one
-- record for each subclass of Type and the sum Node of them. A Type& is an address, a number;
-- Store (oi/type_graph/TypeGraph.h, TypeGraph.cpp) is the store that the addresses point into,
-- with makeType and the node ids. A regular expression of boost is a function from names to Bool.
--
-- Layout is Type::size, Type::align and stripTypedefs. These follow references, so they take fuel;
-- where no array, typedef or key capture contains itself, more fuel than the depth of the nesting
-- is enough.
--
-- Tracker is oi/type_graph/NodeTracker.h. Mutator is RecursiveMutator of oi/type_graph/Visitor.h.
-- Visitor is RecursiveVisitor of oi/type_graph/Visitor.h and the accept of the passes, which takes
-- fuel for the depth of the recursion; Visitor.Termination has the argument that a measure which
-- entering a new node lowers is fuel enough.
--
-- Flattener, Alignment and Padding are oi/type_graph/Flattener.cpp, AlignmentCalc.cpp and
-- AddPadding.cpp, Prune is Prune.cpp, RemoveMembers is RemoveMembers.cpp, and IdentifyContainers,
-- TypeIdentifier, EnforceCompatibility and RemoveTopLevelPointer are the files of these names: a
-- pass is a function of its state (the nodes visited and the graph), each visit in the order of
-- the source, with exceptions, asserts and aborts as values of Error. Numbers of 64 bits wrap
-- round as in the source.
--
-- PassManager is oi/type_graph/PassManager.cpp with the list of passes of CodeGen::transform in
-- oi/CodeGen.cpp. The pass AddChildren, which reads types with drgn, and what the printer leaves
-- in the tracker are parameters.
--
-- KeyCapture is oi/type_graph/KeyCapture.cpp, where the vector of the ContainerInfos is the list
-- of those that the pass adds. NameGen is oi/type_graph/NameGen.cpp, which writes the names that
-- the generated code uses; the names that the other parts meet are those stored in the nodes.
--
-- TopoSorter is oi/type_graph/TopoSorter.cpp: the sorted types, the queue of the types put off and
-- the loop over it, with fuel for the nesting of accept and for the turns of the loop. A rank that
-- falls from each type to those it depends on bounds the first, and turns_enough the second.
--
-- Wire is the data segment: the types of include/oi/types/dy.h, the writers of st.h, ParsedData
-- and TypeCheckingWalker of oi/exporters. A write is the list of its bytes, and the shared
-- iterator of ParsedData is the list of the bytes behind it. Reads past the end and shifts of 64
-- bits or more are errors, where C++ leaves them undefined.
--
-- A variable-length integer takes the value itself as the fuel of its writer, which each round
-- divides by 128.
--
-- Results is what is read back for a user: the elements of include/oi/result/Element.h, the stack
-- machine of oi/IntrospectionResult.cpp that reads them out of a data segment (Results.Iterator,
-- and Results.Iterator.Walk for the traversal that it stands for), the subtree sizes of
-- SizedResult (Results.Sized), the table of oi/exporters/CSV.cpp (Results.Csv), and the objects of
-- include/oi/exporters/Json.h (Results.Json, with a reader of strings in Results.Json.Strings). An
-- iterator is the list of the elements that it still has to give, and a text the list of its
-- bytes.
--
-- Features is oi/Features.h, Features.cpp and EnumBitset.h. A bitset is the function that reads
-- its bits. The fuel of the check bounds its rounds: every round that leaves something to check
-- enables one of the 13 features, so 15 rounds are enough.
--
-- PointerHashSet is the set of oi/OITraceCode.cpp by which the generated code follows each pointer
-- once; as many turns as the table has slots are enough for its loop.
--
-- Not modelled: the readers of DWARF and Clang types and AddChildren, which are calls of drgn and
-- Clang, the configuration files, the writing of code, the debugger, the command line tools, and
-- files.
pub mod Prelude
pub mod TypeIdentifier
pub mod Types
pub mod Store
pub mod IdentifyContainers
pub mod Layout
pub mod Mutator
pub mod Tracker
pub mod Visitor
pub mod Padding
pub mod PassManager
pub mod TopoSorter
pub mod Prune
pub mod RemoveMembers
pub mod NameGen
pub mod KeyCapture
pub mod Wire
pub mod RemoveTopLevelPointer
pub mod Results
pub mod PointerHashSet
pub mod EnforceCompatibility
pub mod Features
pub mod Alignment
pub mod Flattener
mod Examples
