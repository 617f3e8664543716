-- ===== src/Client/Reads.antt =====
-- ReadFromSymbol on a symbol without children that has its handle.
use go_adstc.Prelude.{ℕ, suc, ◌+◌, ◌^◌, ◌<◌, ◌≡◌, ap, ◌∙◌, arith, Bool, true, false, ltb, ◌&&◌}
use go_adstc.Prelude.{List, [], ◌∷◌, ◌++◌, length, some}
use go_adstc.Go.Result.{Result, ok}
use go_adstc.Go.Binary.{pack}
use go_adstc.Ams.{command_read}
use go_adstc.Symbol.{Text, Symbol, lookup}
use go_adstc.Symbol.Store.{symbol_at}
use go_adstc.Conn.{Env, Conn, next_packet, now}
use go_adstc.Command.{response_layout}
use go_adstc.Command.Replies.{posted, read_payload, read-reply}
use go_adstc.SymbolTable.Json.{Encoder}
use go_adstc.Value.{Formats, parse_leaf}
use go_adstc.Value.Update.{parse}
use go_adstc.Value.Update.Changed.{IsSound}
use go_adstc.Value.Update.Publish.{taken, Publishes, parse-Publishes}
use go_adstc.Client.{group_value_by_handle, read_from_symbol, read_or_cached, read_value}
use go_adstc.Client.Handles.{get_symbol_cached}

-- The value was read within the interval.
abbrev pub is_fresh : Symbol → ℕ → Bool
is_fresh s time = ltb time (s.last_update_time + s.min_update_interval) && ltb 0 (length s.value)

module _ (env : Env) (enc : Encoder) (fmts : Formats) (name : Text) (r : ℕ) (s : Symbol) (c : Conn)
    (known : lookup name c.symbols ≡ some r) (at : symbol_at r c.store ≡ some s)
    (handled : 0 < s.handle) where
  abbrev pub ticked : Conn
  ticked = record c { clock_reads = suc c.clock_reads }

  abbrev pub fetched_bytes : Conn
  fetched_bytes = posted command_read (read_payload group_value_by_handle s.handle s.length) ticked

  pub read_from_symbol-known :
      read_from_symbol env enc fmts name c
      ≡ read_or_cached env enc fmts r (env.clock c.clock_reads) s ticked
  unfolding read_from_symbol now
  read_from_symbol-known = rw (get_symbol_cached env name r s c known at handled) (rw at)

  -- ReadFromSymbol, for a symbol without children that has its handle and whose value is empty or
  -- not fresh, in a sound store, when the controller answers without error with bytes that parse
  -- understands, returns the value of these bytes if more than MinUpdateInterval has passed since
  -- the last update at the second look at the clock, and the old value if not.
  pub read_from_symbol-taken :
      (n : ℕ) (bytes : List ℕ) (value : Text)
      → is_fresh s (env.clock c.clock_reads) ≡ false
      → s.childs ≡ []
      → IsSound c
      → n < 2 ^ 32
      → env.accepts c.sent ≡ true
      → env.reply (
          c.sent
          ++ (next_packet command_read (read_payload group_value_by_handle s.handle s.length) c
              ∷ []))
        ≡ some (pack response_layout (0 ∷ n ∷ []) ++ bytes)
      → parse_leaf fmts s.data_type s.length bytes 0 ≡ ok (some value)
      → (read_from_symbol env enc fmts name c).0
        ≡ ok (taken s value (env.clock (suc c.clock_reads)))
  read_from_symbol-taken n bytes value stale leaf sound small accepts reply parsed =
      let new : Text = taken s value (env.clock (suc c.clock_reads)) in
      let (t, d, run, _, _, _) : Publishes r s new
          (parse env enc fmts (suc (length c.store)) r bytes 0 fetched_bytes) =
        parse-Publishes env enc fmts (length c.store) r bytes value s fetched_bytes at leaf sound
          parsed in
      ap (λ (x : Result Text × Conn). x.0) read_from_symbol-known
      ∙ unfold read_or_cached read_value in
        rw stale (
          rw
            (read-reply env group_value_by_handle s.handle s.length ticked 0 n bytes (omega arith)
              small accepts reply)
            (rw run))
