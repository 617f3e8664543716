-- ===== src/Client/Memory.antt =====
-- WriteToSymbol and then ReadFromSymbol, against a controller that keeps what it is told.
use go_adstc.Prelude.{ℕ, suc, ◌+◌, ◌^◌, ◌<◌, ◌≡◌, ap, ◌∙◌, arith, true, false}
use go_adstc.Prelude.{List, [], ◌∷◌, ◌++◌, some, lt→ltb, le→ltb}
use go_adstc.Go.Result.{ok}
use go_adstc.Go.Binary.{pack}
use go_adstc.Ams.{command_read, command_write}
use go_adstc.Symbol.{Text, Symbol, lookup}
use go_adstc.Symbol.Store.{symbol_at}
use go_adstc.Conn.{Env, Conn}
use go_adstc.Command.{response_layout}
use go_adstc.Command.Replies.{posted, read_payload, write_payload}
use go_adstc.SymbolTable.Json.{Encoder}
use go_adstc.Value.{Kind, Formats, kind_of, write_to_node, parse_leaf}
use go_adstc.Value.RoundTrip.{IsExact, width, canonical}
use go_adstc.Value.Node.{parse_leaf-write_to_node}
use go_adstc.Value.Update.Changed.{IsSound}
use go_adstc.Value.Update.Publish.{taken}
use go_adstc.Client.{group_value_by_handle, has_childs, write_to_symbol, read_from_symbol}
use go_adstc.Client.Handles.{write_to_symbol-sends}
use go_adstc.Client.Reads.{is_fresh, read_from_symbol-taken}

-- The interval since the last update of the symbol has passed.
abbrev pub IsDue : Symbol → ℕ → Type 0
IsDue s time = s.last_update_time + s.min_update_interval < time

IsDue-is_fresh : (s : Symbol) (time : ℕ) → IsDue s time → is_fresh s time ≡ false
IsDue-is_fresh s time h =
    rw (le→ltb time (s.last_update_time + s.min_update_interval) (omega arith))

IsDue-taken : (s : Symbol) (value : Text) (time : ℕ) → IsDue s time → taken s value time ≡ value
IsDue-taken s value time h = rw (lt→ltb (s.last_update_time + s.min_update_interval) time h)

module _ (env : Env) (fmts : Formats) (name : Text) (r : ℕ) (s : Symbol) (c : Conn) where
  -- What the connection is after the bytes went out.
  abbrev pub told : List ℕ → Conn
  told bytes = posted command_write (write_payload group_value_by_handle s.handle bytes) c

  -- The next packet is taken, and the controller takes over the bytes and gives them back.
  abbrev pub Keeps : List ℕ → Type 0
  Keeps bytes =
      (env.accepts c.sent ≡ true)
      × (env.reply (told bytes).sent ≡ some (pack (4 ∷ []) (0 ∷ []) ++ []))
      × (env.accepts (told bytes).sent ≡ true)
      × (env.reply
            (posted command_read (read_payload group_value_by_handle s.handle s.length)
              (told bytes)).sent
          ≡ some (pack response_layout (0 ∷ s.length ∷ []) ++ bytes))

  -- For a symbol of a BOOL or integer type with that type's size, without children, that has its
  -- handle, in a sound store: when WriteToSymbol accepts a text, the controller confirms the bytes
  -- and gives them back when asked, and more than MinUpdateInterval has passed since the last
  -- update at both looks at the clock, WriteToSymbol succeeds and ReadFromSymbol then returns the
  -- canonical text of the same value.
  pub write_to_symbol-read_from_symbol :
      (enc : Encoder) (k : Kind) (value : Text) (bytes : List ℕ)
      → lookup name c.symbols ≡ some r
      → symbol_at r c.store ≡ some s
      → 0 < s.handle
      → s.length < 2 ^ 32
      → s.childs ≡ []
      → IsSound c
      → kind_of s.data_type ≡ some k
      → IsExact k
      → s.length ≡ width k
      → write_to_node fmts c.datatypes false s.data_type s.length value ≡ ok bytes
      → Keeps bytes
      → IsDue s (env.clock c.clock_reads)
      → IsDue s (env.clock (suc c.clock_reads))
      → (write_to_symbol env fmts name value c ≡ (ok tt, told bytes))
        × ((read_from_symbol env enc fmts name (told bytes)).0 ≡ ok (canonical k value))
  write_to_symbol-read_from_symbol enc k value bytes known at handled small leaf sound kind exact
        size accepted (a1, r1, a2, r2) due due' =
      let whole : write_to_node fmts c.datatypes (has_childs s) s.data_type s.length value
          ≡ ok bytes =
        rw leaf accepted in
      let parsed : parse_leaf fmts s.data_type s.length bytes 0 ≡ ok (some (canonical k value)) =
        rw size (
          parse_leaf-write_to_node fmts c.datatypes s.data_type k value bytes kind exact
            (rw size at accepted)) in
      (
        write_to_symbol-sends env fmts name value r s c bytes 0 [] known at handled whole
            (omega arith) a1 r1,
        read_from_symbol-taken env enc fmts name r s (told bytes) known at handled s.length bytes
              (canonical k value) (IsDue-is_fresh s (env.clock c.clock_reads) due) leaf sound small
              a2 r2 parsed
            ∙ ap (λ (t : Text). ok t)
                (IsDue-taken s (canonical k value) (env.clock (suc c.clock_reads)) due'),
      )
