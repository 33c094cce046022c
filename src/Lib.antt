-- ===== src/Lib.antt =====
-- cyng is a library in C++ for network and database programs. This development models ten of its
-- parts, as functions on records that return the new state, and proves what makes them correct.
--
-- UTF-8, Utf8.antt: src/io/src/parser/utf-8.cpp and include/cyng/io/parser/utf-8.hpp. `U8ToU32` is the
-- class u8_to_u32, `put` its member; `sanitize` lists the code points for which the sanitizer calls its
-- callback; `encode` is the range of bytes of u32_to_u8_iterator for one code point. A `char` is the
-- number 0 to 255 of its bit pattern and is extended by its sign where the code converts it.
--
-- CSV, Csv/Tokenizer.antt and Csv/Parser.antt: src/parse/src/csv/csv_tokenizer.cpp, csv_parser.cpp and
-- csv_symbol.cpp with their headers under include/cyng/parse/csv/. Each state_ function returns the next
-- tokenizer, the symbols for which it calls back, and whether the code point is consumed. The parser
-- holds the sanitizer, the tokenizer and the stack of cells; `lines` are the calls of its callback. The
-- iterator of boost that writes a cell as UTF-8 is the parameter `u32_to_u8`, which converts or throws.
-- The separator is a `char`, extended by its sign where it is compared with a code point.
-- The 32 rounds for a code point that is refused are the limit of the source.
--
-- Store, Store.antt: Store/Meta.antt is include/cyng/store/meta.h and src/store/src/meta.cpp,
-- Store/Pub.antt is src/store/src/pub.cpp with slot.cpp, and Store/Table.antt with Table/Modify.antt and
-- Table/Erase.antt is src/store/src/table.cpp. Objects and keys enter by their hashes, by which the code
-- compares them; the order in which the hash container iterates, and which channels can be locked, are
-- parameters (`Env`). `Operation` and `perform` put the member functions that change a table into one
-- step. `sent` lists the messages that the slots dispatch. Store/Record.antt is src/store/src/record.cpp
-- and auto_table.cpp. Store/Database.antt is src/store/src/db.cpp with `access` of include/cyng/store/db.h
-- for one table; an entry is a table, or an auto_table with its key. Database/Calls.antt puts the member
-- functions into one step, and Database/Isolation.antt tells which of them concern a table.
--
-- VM, Vm.antt: Vm/Stack.antt is src/vm/src/stack.cpp with include/cyng/vm/stack.h, Vm/Memory.antt the
-- program counter of src/vm/src/memory.cpp, and Vm/Program.antt `vm_base::run` and `exec` of
-- src/vm/src/vm.cpp for the operation codes that work on the stack. `make` is make_tuple, make_vector and
-- make_deque, by the container. `checked` tells whether BOOST_ASSERT is compiled in; without it, a read
-- of an empty stack is the fault `undefined`. The loop runs as often as there are instructions left.
--
-- JSON, Json.antt: Json/Tokenizer.antt and Json/Parser.antt are src/parse/src/json/json_tokenizer.cpp and
-- json_parser.cpp with their headers under include/cyng/parse/json/; `Machine` is what stands behind the
-- UTF-8 decoder, with the stack of objects and the stack of states. Json/Print.antt is
-- src/io/src/serializer/json.cpp for the objects that the parser makes, with the iterator
-- u8_to_u32_iterator of include/cyng/io/parser/utf-8.hpp. boost's iterator that writes UTF-8, its
-- lexical_cast to numbers, and the stream's text of a double are parameters. `digits` has the number
-- plus one for fuel, `code_points` the length of its text.
--
-- Binary format, Binary.antt: Binary/Serializer.antt is src/io/src/serializer/binary.cpp, and
-- Binary/Parser.antt src/io/src/parser/parser.cpp with the make_ functions of src/obj/src/util.cpp, on
-- the numbers of include/cyng/obj/buffer_cast.hpp and the tags of tag.hpp. An object of a type that the
-- machine does not look into is its tag and its bytes. Containers are written as instructions for the
-- machine, so that Binary/RoundTrip.antt joins the serializer, the parser and Vm. The types that other
-- libraries make are the parameter `make_foreign`. BOOST_ASSERT is compiled in here.
--
-- OBIS codes, Obis.antt: src/obj/src/intrinsics/obis.cpp, a code as the list of its six bytes.
--
-- Tasks, Task.antt: Task/Channel.antt is src/task/src/channel.cpp with include/cyng/task/channel.h and the
-- calls of task.hpp, Task/Registry.antt is src/task/src/registry.cpp. The strand of the I/O library runs
-- one handler after another in their order: it is a list, of which `run_next` takes the first. The end of
-- a timer is the step `expire`. The functions of a task are not run but logged. A schedule is a list of
-- calls, ends of the timer and turns of the strand, in any order. Of a weak pointer, `alive` tells
-- whether it can be locked. `checked` tells whether BOOST_ASSERT is compiled in.
--
-- Database sessions, Pool.antt: src/db/src/session_pool.cpp. The attempts to connect are numbered, and so
-- are the sessions; the parameter `opens` tells which attempts the database accepts. Pool/Events.antt has
-- the calls of start, get_session and stop and the ends of the timer, in any order. BOOST_ASSERT is compiled in.
--
-- Trees of objects, Dom.antt: Dom/Walker.antt is src/obj/src/dom_walker.cpp, whose calls of the walker are
-- a list, and Dom/Transform.antt and Dom/Rename.antt are src/obj/src/dom_transform.cpp,
-- Dom/Find.antt and Dom/Merge.antt are find.cpp and merge.cpp beside it. `pair` is attr_t,
-- param_t or prop_t, by its key, and `map_of` one of the three maps; an object of another type is its tag
-- and its binary form. An object owns its parts, so a change in place is a new value.
--
-- A failing BOOST_ASSERT and an exception are values of `Result`. Every other loop is a recursion on its
-- list or on the rounds left, and needs no fuel of the model's own.
--
-- Not modelled: the locks of the store and of the session pool and calls by several threads at once,
-- access to several tables at once, the operation codes that call over channels or read the clock, the
-- serialisers to other formats, the scheduler and the stash of the tasks, the drivers of the databases,
-- SQL and the other libraries of src/, which call the system or format output, and 3party/, which holds
-- another project's code.
pub mod Base
pub mod Utf8
pub mod Csv
pub mod Store
pub mod Vm
pub mod Json
pub mod Binary
pub mod Obis
pub mod Task
pub mod Pool
pub mod Dom
