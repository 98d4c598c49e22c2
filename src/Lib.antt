-- ===== src/Lib.antt =====
-- gomcpack: the mcpack serialisation and the npc protocol.
--
-- The repository has three Go packages. mcpack/ writes Go values in the binary format MCPACKv2
-- (`Marshal`) and reads them back (`Unmarshal`). npc/ sends requests and responses over
-- connections, each a header of 36 bytes with a magic number and the length of the body behind it,
-- with a client and a server. mcpacknpc/ calls functions over npc with mcpack bodies.
--
-- Which file models which part:
--   Go                  the outcome of Go code (a value, a panic), `error` values, byte slices with
--                       their bounds checks, and procedures over a state
--   Mcpack/Const        mcpack/const.go
--   Mcpack/Number       mcpack/number.go: `Uint32` is `uint32`, `PutUint32` is `put_uint32`
--   Mcpack/Value        the values that mcpack/encode.go sees through `reflect`, `isEmptyValue`
--   Mcpack/Encode/State the `encodeState` of mcpack/encode.go with `setType`, `setKeyLen`, `setKey`
--                       and `resizeIfNeeded`
--   Mcpack/Encode/Scalars, Encoders  the encoders of mcpack/encode.go, `reflectValue`, `Marshal`
--   Mcpack/Wire         the format, which mcpack/encode.go and mcpack/decode.go draw in comments
--   Mcpack/Tags         mcpack/tags.go
--   Mcpack/Fields       of mcpack/encode.go: `dominantField`, the orders `byName` and `byIndex`, the
--                       search of `typeFields` through embedded structs, and its choice of one field
--                       of each name, `typeByIndex`
--   Mcpack/Dyn          the values behind `interface{}` that mcpack/decode.go makes
--   Mcpack/Decode/State, Items, Interface  mcpack/decode.go: `key`, `next`, the methods whose names
--                       end in `Interface`, and `Unmarshal` into a variable of type `interface{}`
--   Mcpack/Fold         mcpack/fold.go; Mcpack/Fold/Unicode has the library functions that it uses
--   Mcpack/GoType       the types of variables, and the values of each
--   Mcpack/Decode/Setters, Loops, Typed  mcpack/decode.go: `Unmarshal` into a variable of any type,
--                       with `indirect`, `value`, `object`, `array` and the methods for one item
--   Mcpack/Reflect      what `Marshal` sees of a variable
--   Mcpack/View         what a value is for such a reader
--   Mcpack/RoundTrip    the encoder and the decoder together
--   Npc/Header          npc/header.go
--   Npc/Message         npc/request.go and npc/response.go, and the streams that they use
--   Npc/Serve           the loop of a connection and `response` of npc/server.go
--   Npc/Listen          the accept loop of npc/server.go, with its delays
--   Npc/Notify          `closeNotify` and `noteClientGone` of npc/server.go
--   Npc/TestServer      npc/npctest/server.go
--   Npc/Client          npc/client.go: the pool of idle connections and how a call uses it
--   Npc/Selector        npc/selector.go
--   Npc/Call            one call from the client's request to its response
--   Mcpacknpc/Handler, Client  mcpacknpc/handler.go and mcpacknpc/client.go
--   Mcpacknpc/Call      a call of a function, through both packages
--
-- Integers are natural numbers with the conversions of Go written out as `% 2 ^ w`; a signed integer
-- or a float is its bit pattern. Go's `int` has 64 bits, and offsets and lengths do not reach its
-- bound. The state of the encoder and of the decoder is passed explicitly; a panic is a value that
-- the deferred `recover` of `marshal` and `unmarshal` turns into an error, unless it is a
-- `runtime.Error`.
--
-- `value_interface` recurses on fuel: an item of a container is shorter than the container, so the
-- length of the input is enough. `serve` takes a turn for each request, which has at least 36 bytes.
-- A typed variable is decoded by recursion on its type, with that fuel for an `interface{}` in it.
-- `contains_loop` takes at least one byte of the options in each turn. Each level of the search of
-- `typeFields` but the last visits a struct type of the table that no level had. `select_fields`
-- takes at least one field in each turn.
--
-- Not modelled: `fieldByIndex` and the cache of fields; variables of types that hold pointers to
-- themselves, an `interface{}` that holds a pointer, fields of embedded structs in the decoder, and
-- the capacity of a `[]byte` that the decoder has set; and of npc/ deadlines, logging, the pools of
-- buffers, a panic of a handler, and the wait group of npc/npctest/. A value of struct type stands in
-- the model with the fields that `typeFields` selects.
pub mod Prelude
pub mod Go
pub mod Mcpack
pub mod Npc
pub mod Mcpacknpc
