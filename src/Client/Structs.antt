-- ===== src/Client/Structs.antt =====
-- ReadFromSymbol on a symbol with children that has its handle.
use go_adstc.Prelude.{ℕ, ◌^◌, ◌<◌, ◌≡◌, ◌≢◌, refl, ap, sym, ◌∙◌, arith, true, false}
use go_adstc.Prelude.{inl, inr, List, [], ◌∷◌, ◌++◌, Option, some}
use go_adstc.Go.Result.{ok}
use go_adstc.Go.Binary.{pack}
use go_adstc.Ams.{command_read}
use go_adstc.Symbol.{Text, Symbol, lookup}
use go_adstc.Symbol.Store.{symbol_at, change_at, symbol_at-change_at_other}
use go_adstc.Conn.{Env, Conn, next_packet}
use go_adstc.Command.{response_layout}
use go_adstc.Command.Replies.{read_payload, read-reply}
use go_adstc.SymbolTable.{References}
use go_adstc.SymbolTable.Json.{Encoder}
use go_adstc.SymbolTable.Trees.{Tree, IsTree}
use go_adstc.Value.{Formats}
use go_adstc.Value.Update.Changed.{IsSound}
use go_adstc.Value.Update.Layouts.{AllLeaves, AllLeaves-map, IsLaid, IsReady, HasValue}
use go_adstc.Value.Update.Structs.{kids_in, parse_leaves}
use go_adstc.Client.{group_value_by_handle, with_read, read_from_symbol, read_or_cached, read_value}
use go_adstc.Client.Reads.{is_fresh, ticked, fetched_bytes, read_from_symbol-known}

module _ (env : Env) (enc : Encoder) (fmts : Formats) (name : Text) (r : ℕ) (s : Symbol) (c : Conn)
    (known : lookup name c.symbols ≡ some r) (at : symbol_at r c.store ≡ some s)
    (handled : 0 < s.handle) (text_at : ℕ → Text) (t : Tree) where
  abbrev kids : ℕ → References
  kids = kids_in c.store

  -- The value of the whole is stored at the root, which is no leaf.
  root_changed :
      (text : Text) (time : ℕ) (d : Conn)
      → kids r ≢ []
      → (q : ℕ) → HasValue kids text_at d q
      → HasValue kids text_at (record d { store = change_at r (with_read text time) d.store }) q
  root_changed text time d inner q (x, x_at, leaf, value) = (
    x,
    symbol_at-change_at_other q r (with_read text time) d.store
          (λ e. inner (ap kids (sym e) ∙ leaf))
        ∙ x_at,
    leaf,
    value,
  )

  -- For a symbol with children that has its handle and whose value is not fresh, in a sound store
  -- in which its children form a tree, where each symbol of the tree lies in the window of its
  -- parent, the bytes of each leaf parse to a text, and each leaf is due for an update or has that
  -- text already: when the controller answers the read without error, ReadFromSymbol succeeds, and
  -- every leaf of the tree then has the text of its own bytes.
  pub read_from_symbol-leaves :
      (n : ℕ) (bytes : List ℕ) (parent : Option ℕ)
      → is_fresh s (env.clock c.clock_reads) ≡ false
      → s.childs ≢ []
      → IsSound c
      → n < 2 ^ 32
      → env.accepts c.sent ≡ true
      → env.reply (
          c.sent
          ++ (next_packet command_read (read_payload group_value_by_handle s.handle s.length) c
              ∷ []))
        ≡ some (pack response_layout (0 ∷ n ∷ []) ++ bytes)
      → IsTree c.store parent r t
      → IsLaid kids fmts text_at r bytes 0 t
      → AllLeaves kids (IsReady kids text_at env c) r t
      → (text : Text) × (d : Conn) × (read_from_symbol env enc fmts name c ≡ (ok text, d))
        × AllLeaves kids (HasValue kids text_at d) r t
  read_from_symbol-leaves n bytes parent stale inner sound small accepts reply is laid ready =
      let fetched : Conn = fetched_bytes env enc fmts name r s c known at handled in
      let (text, d, run, _, values) =
        parse_leaves env enc fmts text_at t parent r bytes fetched is sound laid (
          AllLeaves-map kids (IsReady kids text_at env c) (IsReady kids text_at env fetched) r t
            later ready) in
      let time : ℕ = env.clock c.clock_reads in
      let e : Conn = record d { store = change_at r (with_read text time) d.store } in
      (
        text,
        e,
        read_from_symbol-known env enc fmts name r s c known at handled
            ∙ unfold read_or_cached read_value in
              rw stale (
                rw
                  (read-reply env group_value_by_handle s.handle s.length
                    (ticked env enc fmts name r s c known at handled) 0 n bytes (omega arith) small
                    accepts reply)
                  (rw run refl)),
        AllLeaves-map kids (HasValue kids text_at d) (HasValue kids text_at e) r t
            (root_changed text time d (rw at inner)) values,
      )
    where
      later :
          (q : ℕ)
          → IsReady kids text_at env c q
          → IsReady kids text_at env (fetched_bytes env enc fmts name r s c known at handled) q
      later q (x, x_at, leaf, inl e) = (x, x_at, leaf, inl e)
      later q (x, x_at, leaf, inr due) = (x, x_at, leaf, inr (λ m le. due m (omega arith)))
