-- ===== src/Lib.antt =====
-- The configuration client and the command expressions of vyatta-cfg.
--
-- The program has two cores. The template expressions of src/cliexec/cli_new.c are evaluated on
-- values, one string or an array of strings: values are built (`str2val`, `add_val`,
-- `char2val`), compared (`val_cmp`, `scan_ipv6`), texts are expanded (`expand_string`), and trees of
-- conditions and commands are checked (`check_syn`). The
-- client library of src/client talks to configd: a remote call packs its arguments, a request is
-- written with the next `req_id`, the response is read and checked, and errors, a text or a list of
-- management errors, go to the caller's `struct configd_error`, from which the texts for commit and
-- validation are made. Above the library are the shell API, a table of operations that print what a
-- shell evaluates, with the completion of commands, the class
-- `CfgClient`, and the compatibility store.
--
-- Prelude       shared names: native numbers, Boolean tests, lists, bytes, integers, outcomes
-- Value         `valstruct` of src/cli_cstore.h; `str2val`, `add_val`, `char2val_text` of
--               src/cliexec/cli_new.c. Value/Append is on `add_val`, Value/Lines on `char2val_text`.
-- Compare       `val_cmp` of src/cliexec/cli_new.c with its tables. Compare/Scanf has the `sscanf` of
--               its formats, Compare/Ipv6 `scan_ipv6`; Compare/Multi is on values of many strings,
--               Compare/Decimal on numbers, Compare/Ipv4 on IPv4 addresses, and
--               Compare/Ipv6/Address on IPv6.
-- Expand        `expand_string` of src/cliexec/cli_new.c. Expand/Room is on the room in the buffer,
--               Expand/Pieces on the text that it holds, Expand/Total on how a run ends,
--               and Expand/Refused on refused memory and the call after it.
-- Syntax        the nodes of templates (Syntax/Nodes) and their evaluation in
--               src/cliexec/cli_new.c: `eval_va`, `check_comp`, `check_syn_func`; Syntax/Convert has
--               `char2val`, Syntax/Execute `execute_list`. Syntax/Words is on the words of a variable,
--               Syntax/Expr on conditions, Syntax/Lists on lists of nodes, Syntax/Effects on what is
--               left alone, and Syntax/Count on counts.
-- Cpath         `Cpath` of src/client/cpath.hpp. Cpath/Parse is on paths written and read again.
-- Ctemplate     `Ctemplate` of src/client/ctemplate.cpp and ctemplate.hpp
-- Varref        `VarRef` of src/cliexec/cstore-varref.cpp; Varref/Handle has its `getValue` and
--               `getSetPath` and the functions of cstore-c.cpp beside it. Varref/Walk is on single
--               references, Varref/Found on `cstore_get_var_ref`, Varref/Total on the end of `process_ref`.
-- Cliexec       src/cliexec/cliexec.cpp behind its options. Cliexec/Actions is on the names of actions.
-- Mgmt          src/client/error.c. Mgmt/Format is on the texts.
-- Rpc           src/client/connect.c, from the JSON values on. Rpc/Receive is on `recv_response` and
--               the functions that call it.
-- Client        the common course of the remote calls; Client/Calls has those of src/client/session.c,
--               node.c, template.c, callrpc.c, auth.c and file.c, Client/Commit those of transaction.c,
--               Client/Paths its `make_paths`, and Client/Edit the environments of session.c.
--               Client/Failed is on a refused commit, Client/Answered on single answers and on calls
--               that make no request.
-- Maps          `std::map` as a list in the order of its keys.
-- Completion    `getCompletionEnv` of src/client/completion_env.cpp, which configd_node_get_complete_env
--               of node.c calls. Completion/Quoting is on what a shell reads of it.
-- Compat        the class `Cstore` of src/compat/cstore-compat.cpp; Compat/Nodes has its operations on
--               values, children and states. Compat/Path is on paths, Compat/Status on states.
-- CfgClient     the class `CfgClient` of src/client/CfgClient.cpp: what its methods share, and the texts
--               they cut; CfgClient/Methods has the methods. CfgClient/Texts is on paths and texts,
--               CfgClient/Sessions on the session of the connection.
-- Shell         src/cli_shell_api.cpp: its table; Shell/Ops has the operations, Shell/Program `main`
--               behind the options. Shell/Listed is on the lists that are printed, Shell/Edited on
--               operations in an edit level.
-- Tests         the theorems at concrete values.
--
-- State is passed: a function takes the records it reads and returns them as they are afterwards.
-- `Outcome` and `Value.Result` say how a call ends: with a value, with an error code, in `exit`, or
-- where C gives no meaning: a write outside of an array or a buffer, a failed assertion, the read of
-- a cell that was not written or of a null pointer. A C string is the list of its bytes. `unsigned
-- int` is a native number with its wrap written out. Texts and arrays are shorter than 2^31.
--
-- Loops are structural recursion on the text or the list. Two have fuel: `expand_loop` takes the
-- length of the text, and every pass takes at least one byte of it; `grow_for` takes the length of the
-- value plus one, and every round makes at least one more byte of room.
--
-- Parameters stand for code outside of the repository: jansson (kinds, members, elements, packing),
-- the maps and vectors of the utility library, `argz_create_sep`, the socket, the escaping by
-- uriparser, `dirname`, `getopt_long`, decimal numbers, `args_to_path`, the lexer that flex makes, processes and regular expressions, and the allocation of
-- memory where the code tests it. Two more stand for what `expand_string` gets from the rest of the
-- program: the string of `get_at_string`, and the value of a path by `cstore_get_var_ref`. A
-- reference is resolved on the answers of configd (`Varref.Store`), which do not change while it is.
-- The connection of a remote call is never a null pointer, but in Compat; memory that argz,
-- `strdup` and the client functions ask for is at hand, and freeing is not modelled.
--
-- Not modelled: the lexers and the grammar of templates, the start of processes in
-- src/cliexec/cli_new.c, the start of the shell in src/cliexec/cliexec.cpp, logging, sockets, and the
-- bindings.
pub mod CfgClient
pub mod Client
pub mod Cliexec
pub mod Compare
pub mod Compat
pub mod Completion
pub mod Cpath
pub mod Ctemplate
pub mod Expand
pub mod Maps
pub mod Mgmt
pub mod Prelude
pub mod Rpc
pub mod Shell
pub mod Syntax
pub mod Tests
pub mod Value
pub mod Varref
