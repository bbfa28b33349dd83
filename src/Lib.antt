-- ===== src/Lib.antt =====
-- abb_librws: a client library for the Robot Web Services of an ABB robot controller.
--
-- The program has these parts. The RAPID data classes turn values of the robot's language into text and
-- back. The POCO client sends HTTP requests through Poco's classes, with cookies, authentication and one
-- retry, and holds one WebSocket. The RWS client derives from it: each of its methods makes a path and a
-- content, sends them by the POCO client, and evaluates what comes back into a result that may hold an
-- XML document; it also keeps a log of the last results and the group of a subscription. The XML search
-- functions read such documents. RWSInterface and RWSStateMachineInterface stand above the RWS client.
--
-- Base: texts as lists of bytes, with the methods of std::string that the sources use, and the lemmas on
--   lists that the parts share. A text literal is `codes "..."`.
-- Rapid (include/abb_librws/rws_rapid.h, src/rws_rapid.cpp): Atoms has constructString and parseString of
--   the atomic types, Delimited the member functions of RAPIDRecord that take a text apart, Symbols the
--   tree of RAPID data with getType, constructString, parseString and operator=, Records the record
--   classes, Numbers what is used of numbers besides their text, Objects the objects in memory with
--   the pointers to their components. A parse is over the old
--   object, since the sources parse into an object that exists; `threw` is a std::out_of_range. The
--   modules below them hold the proofs.
-- Xml (the functions of src/rws_common.cpp over documents): a document is a tree of elements and texts.
-- Poco (src/rws_poco_client.cpp): Types has POCOResult and what Poco brings, Work the state of the client
--   and the actions that methods are made of, Cookies the functions over cookie texts, Http
--   makeHTTPRequest and what it calls, Socket the three methods of the WebSocket, Session the constructor
--   and the time-out, Threads the mutexes, with the methods of any number of threads cut into steps.
-- Client (include/abb_librws/rws_client.h, src/rws_client.cpp): Types has its structures and state,
--   Constants those of src/rws_common.cpp that it uses, Evaluation evaluatePOCOResult, Paths the path
--   generators, Requests the methods that read, Commands those that write, Subscription the others,
--   LogTexts the texts of the log, Creation and Defaults the constructors, the destructor and the default
--   arguments, Calls the methods as calls in any order, and Actions the rules by which the proofs go through
--   methods. Evaluation/Race cuts the change of the log into the steps of several threads.
-- SystemConstants (include/abb_librws/rws_common.h, src/rws_common.cpp): the structures of constants.
-- TriBools (include/abb_librws/rws_common.h): TriBool.
-- Interface (include/abb_librws/rws_interface.h, src/rws_interface.cpp): the methods of
--   RWSInterface; Reports has those that make lists of a document's nodes, Configuration those that read
--   the structures of include/abb_librws/rws_cfg.h, by chains of tests that are lists of a title and what
--   is made of the value, Mechanical the information about mechanical units and their targets, Calls the
--   methods that pass on one answer and collectRuntimeInfo, with the proofs below them. Symbols and Files
--   say what a controller keeps of RAPID symbols and of files, by the requests that it was sent, and what a
--   store of values or files replies to the same calls.
-- StateMachine (src/rws_state_machine_interface.cpp and its header): toggleIOSignal, with what a toggle
--   has gone through in Signals, when it succeeds in Attempts and how much it sends in Bounds; the record
--   classes, codes and identifiers; in Services one module for each of the classes of services; and in Calls
--   their methods as calls in any order.
-- Tests: runs of the definitions, and the theorems at concrete inputs.
--
-- Poco and the controller are parameters. The record Net has the network calls; each may depend on the
-- history of all calls before, so it stands for any controller in any order of events, and may throw any
-- of the exceptions that the sources tell apart. CookieStore is Poco's collection of cookies; nothing is
-- assumed of it. The XML parser is a function that may fail. The record Floats has printing and reading
-- of float and double; where a theorem needs that a number reads back, that is a hypothesis about it.
--
-- Exceptions are values (Outcome, Parsed), and a method is a function from the client to an outcome and
-- the client after it, so what a method leaves behind when it throws is part of the model.
--
-- Fuel: countCharInString is given one round more than the text is long, removing &quot; as many rounds
-- as the text is long, a decimal number one digit more than its value; that these are enough is a
-- consequence of the theorems about them. webSocketReceiveFrame waits for a frame as long as the
-- controller sends pings, which nothing bounds, so it has fuel as an argument, and a wait that the fuel
-- does not end gives none, which is told apart from every result. The unsigned int counters of the RAPID
-- parser wrap around at 2^32.
--
-- Not modelled: interleavings outside Poco.Threads and Client.Evaluation.Race (elsewhere a method is one step);
-- time-outs other than as a setting of the session and an exception of Poco; the reference counts of Poco's
-- pointers; the accessors that hand out the services, which hold nothing but a pointer to the interface.
pub mod Base
pub mod Rapid
pub mod Xml
pub mod Poco
pub mod Client
pub mod SystemConstants
pub mod TriBools
pub mod Interface
pub mod StateMachine
mod Tests
