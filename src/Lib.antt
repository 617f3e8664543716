-- ===== src/Lib.antt =====
-- A client for the ADS protocol of TwinCAT controllers (goADSTc3), in Go: frames over TCP, the ADS
-- commands, and symbols that are read and written as text.
--
-- Parts and how they interact. ams.go writes the headers of a request; comm.go numbers a request,
-- hands it to the transmit worker and waits, while `listen` cuts the incoming stream into packets and
-- `handleReceive` sends each to the request that waits for it. The files command*.go are the requests;
-- commandDeviceNotification.go takes apart the packets that no request waits for, and updates the
-- symbol of each sample. symbols.go parses the uploads of data types and symbols, and builds the
-- objects of the symbols; readWriter.go turns the bytes of a symbol into text and back, and keeps the
-- last value of each symbol. ads.go is the client's interface by symbol names; connection.go connects,
-- loads the symbols and closes.
--
-- Which file models which part:
--   Prelude, Go: shared names; what is used of Go's library. Go.Result are (value, error) pairs and
--     panics, Go.Binary is encoding/binary on fixed layouts, Go.Strconv and Go.Space are the functions
--     of strconv and bytes, Go.Int signed integers.
--   Defs: the enumerations of defs.go. Go's types are the numbers behind them, so the model's operations
--     take numbers, and these names stand for the ones with a meaning.
--   Ams: ams.go and the addresses of defs.go. `encode` is conn.encode, Ams.Dotted
--     stringToNetID.
--   Comm: comm.go, `listen` and `handle_receive`.
--   Requests: comm.go as goroutines. A Step is one thing that a sendRequest, a handleReceive, the
--     transmitWorker or the shutdown does; Steps is a run. Requests.Answers is about the answers of
--     requests, Requests.Late about answers that come too late, Requests.Transmit and Broken about what
--     the worker writes.
--   Symbol: the records of symbols.go, Symbol.Store the objects, Symbol.Arrays makeArrayChilds, and
--     Symbol.Upload the parse of data types; Symbol.Upload.Written is the controller's side of it.
--   SymbolTable: ParseUploadSymbolInfoSymbols, addSymbol, addOffset and addChilds of symbols.go.
--     SymbolTable.Trees is what a data type stands for, and when objects form such a tree;
--     SymbolTable.Builds and Refines compare the two, SymbolTable.Ranked and Total are about types that
--     do not contain themselves, SymbolTable.Cyclic about types that do, SymbolTable.Flat about the
--     names that enter the map, SymbolTable.Written is the controller's side, and SymbolTable.Json is
--     parseSymbol and GetJSON, with Fields and Ends about what the view has.
--   Conn: connection.go's state and sendRequest, one request at a time. What the transmit worker and
--     the controller do, and what the clock shows, is the parameter Env.
--   Command: one function for each method of command*.go; Command.Replies and Codes are about their
--     results.
--   Notification: DeviceNotification, as the list of its calls of handleNotification, and the time
--     that handleNotification computes; Notification.Handle is handleNotification, with the update that
--     it offers.
--   Client: ads.go; Client.Handles is about GetSymbol and WriteToSymbol, Client.Watch about
--     AddSymbolNotification and the sizes of the uploads, Client.Reads about ReadFromSymbol,
--     Client.Structs about ReadFromSymbol on a symbol with children, Client.Memory about a write and
--     the read behind it.
--   Connection: NewConnection, Connect and Close of connection.go, and send of comm.go; Connection.Loads
--     and Closes are about a controller that answers, with Packets and Handles for what was sent.
--     Connection.Invariant says what a property of the store needs in order to hold through any calls in
--     any order, Uploads, Keeps, Startup and Runs show that it is enough, and Sound and Marks are two
--     such properties.
--   Value: readWriter.go on the bytes of one symbol without children; Value.Update is the whole of
--     parse, with its walk over the children, and parentChanged: Value.Update.Changed, Frame and Moves
--     are about what it changes, Windows, Layouts and Structs about a symbol with children.
--   Tests: runs and instances.
--
-- Bytes and strings are lists of numbers; a uint32 keeps its wrap-around. Symbols are objects in the
-- store of Conn: a pointer is a place in it, and the maps of the connection and of a symbol's children
-- hold places. A map is a list with different keys, and a loop over a map takes them in the order of
-- the list.
--
-- Loops: `listen` goes one more round than the stream has bytes; a round that hands something on reads
-- a header of six bytes, and one that finds no header continues, as the loop of the source does until
-- the shutdown. The loops over data types and over symbols take one more round of fuel than there are
-- bytes, enough since a round reads an entry, and `decode_data_type` takes as much fuel for the depth of
-- nesting, enough since each level uses up a byte of the buffer that is not zero; `format_uint` has the
-- 20 digits of a uint64. Go's stack is a depth: addOffset goes one level deeper than there are data
-- types, and parse, parseSymbol, parentChanged and addChilds one deeper than there are symbols in the
-- store. Go runs on until its stack is full where such a recursion goes round in a circle, and the model
-- panics there; where the data types do not contain themselves the depth is enough. Requests follows the
-- invoke ids up to 2^32 - 1.
--
-- Not modelled: logging; floats, the time zone in which times are shown (the parameter Formats) and
-- the text of JSON (the parameter Encoder); net.Dial, a parameter of `connect`; the start of the
-- worker goroutines and the wait for their end; how long a channel blocks, such as systemResponse in
-- `listen`, where Env says whether a request is taken and answered; the locks, except that of
-- activeRequests in Requests; the example program.
pub mod Prelude
pub mod Go
pub mod Ams
pub mod Comm
pub mod Symbol
pub mod SymbolTable
pub mod Client
pub mod Connection
pub mod Conn
pub mod Defs
pub mod Command
pub mod Value
pub mod Requests
pub mod Notification
mod Tests
