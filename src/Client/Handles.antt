-- ===== src/Client/Handles.antt =====
-- Handles of symbols: fetched once, and used for every write.
use go_adstc.Prelude.{ℕ, ◌^◌, ◌<◌, ◌≡◌, ◌∙◌, arith, true, false, if◌then◌else◌, ◌==◌, ltb}
use go_adstc.Prelude.{List, [], ◌∷◌, ◌++◌, length, some, le→ltb}
use go_adstc.Prelude.{take_all}
use go_adstc.Go.Result.{ok, err, panic, ads_error}
use go_adstc.Go.Bytes.{to_le, of_le-to_le, length-to_le}
use go_adstc.Go.Binary.{pack, read_over-pack, field}
use go_adstc.Ams.{command_read_write, command_write}
use go_adstc.Symbol.Store.{change_at, symbol_at, symbol_at-change_at, with_handle}
use go_adstc.Symbol.{Text, Symbol, lookup}
use go_adstc.Conn.{Env, Conn, registered, next_packet}
use go_adstc.Command.{response_layout, write, code_response}
use go_adstc.Command.Replies.{posted, write_payload, write_read_payload, write_read-reply}
use go_adstc.Command.Replies.{send_request-reply, unsent_outcomes}
use go_adstc.Client.{group_handle_by_name, group_value_by_handle, uint32_of}
use go_adstc.Client.{has_childs, get_handle_by_name, get_known, get_symbol, write_value}
use go_adstc.Client.{write_to_symbol}
use go_adstc.Value.{Formats, write_to_node}

uint32_of-to_le : (h : ℕ) → h < 2 ^ 32 → uint32_of (to_le 4 h) ≡ ok h
unfolding uint32_of
uint32_of-to_le h bound =
    let long : ltb (length (to_le 4 h)) 4 ≡ false = le→ltb _ _ (omega (arith, length-to_le 4 h)) in
    rw (long, take_all 4 (to_le 4 h) (omega (arith, length-to_le 4 h)), of_le-to_le 4 h bound)

get_symbol-known :
    (env : Env) (name : Text) (r : ℕ) (s : Symbol) (c : Conn)
    → lookup name c.symbols ≡ some r
    → symbol_at r c.store ≡ some s
    → get_symbol env name c ≡ get_known env name r (some s) c
unfolding get_symbol
get_symbol-known env name r s c e f = rw (get_symbol, e) (rw f)

-- A symbol that has its handle is looked up without a request.
pub get_symbol_cached :
    (env : Env) (name : Text) (r : ℕ) (s : Symbol) (c : Conn)
    → lookup name c.symbols ≡ some r
    → symbol_at r c.store ≡ some s
    → 0 < s.handle
    → get_symbol env name c ≡ (ok r, c)
get_symbol_cached env name r s c e f pos =
    let kept : (s.handle == 0) ≡ false = ground arith in
    get_symbol-known env name r s c e f ∙ unfold get_known in rw kept

-- The state once a handle has been fetched.
abbrev pub fetched : Text → ℕ → ℕ → Conn → Conn
fetched name r h c =
    let asked = posted command_read_write (write_read_payload group_handle_by_name 0 4 name) c in
    record asked { store = change_at r (with_handle h) asked.store }

module _ (env : Env) (name : Text) (r : ℕ) (s : Symbol) (c : Conn) where
  get_symbol_fetches :
      (h n : ℕ)
      → lookup name c.symbols ≡ some r
      → symbol_at r c.store ≡ some s
      → s.handle ≡ 0
      → h < 2 ^ 32
      → n < 2 ^ 32
      → env.accepts c.sent ≡ true
      → env.reply (
          c.sent
          ++ (next_packet command_read_write (write_read_payload group_handle_by_name 0 4 name) c
              ∷ []))
        ≡ some (pack response_layout (0 ∷ n ∷ []) ++ to_le 4 h)
      → get_symbol env name c ≡ (ok r, fetched name r h c)
  get_symbol_fetches h n e f no_handle hb nb a reply =
      let missing : (s.handle == 0) ≡ true = ground arith in
      get_symbol-known env name r s c e f
      ∙ unfold get_known get_handle_by_name in
        rw missing (
          rw
            (write_read-reply env group_handle_by_name 0 4 name c 0 n (to_le 4 h) (omega arith) nb a
              reply)
            (rw (uint32_of-to_le h hb)))

  -- For a symbol without a handle, GetSymbol asks the controller once: it stores the handle of the
  -- answer in the symbol, and when that is not 0, a second call returns the same symbol and sends
  -- nothing.
  pub get_symbol_once :
      (h n : ℕ)
      → lookup name c.symbols ≡ some r
      → symbol_at r c.store ≡ some s
      → s.handle ≡ 0
      → h < 2 ^ 32
      → 0 < h
      → n < 2 ^ 32
      → env.accepts c.sent ≡ true
      → env.reply (
          c.sent
          ++ (next_packet command_read_write (write_read_payload group_handle_by_name 0 4 name) c
              ∷ []))
        ≡ some (pack response_layout (0 ∷ n ∷ []) ++ to_le 4 h)
      → (get_symbol env name c ≡ (ok r, fetched name r h c))
        × (get_symbol env name (fetched name r h c) ≡ (ok r, fetched name r h c))
  get_symbol_once h n e f no_handle hb pos nb a reply = (
    get_symbol_fetches h n e f no_handle hb nb a reply,
    get_symbol_cached env name r (with_handle h s) (fetched name r h c) e
        (symbol_at-change_at r (with_handle h) c.store s f) pos,
  )

pub code_response-pack :
    (code : ℕ) (rest : List ℕ)
    → code < 2 ^ 32
    → code_response (pack (4 ∷ []) (code ∷ []) ++ rest)
      ≡ (if code == 0 then ok tt else err (ads_error code))
unfolding code_response
code_response-pack code rest h =
    rw (read_over-pack (4 ∷ []) (λ vs. field vs 0) 0 (code ∷ []) rest (h, tt)) (ground arith)

module _ (env : Env) (fmts : Formats) (name value : Text) (r : ℕ) (s : Symbol) (c : Conn) where
  write_to_symbol-cached :
      lookup name c.symbols ≡ some r
      → symbol_at r c.store ≡ some s
      → 0 < s.handle
      → write_to_symbol env fmts name value c ≡ write_value env fmts value (some s) c
  unfolding write_to_symbol
  write_to_symbol-cached e f pos = rw (get_symbol_cached env name r s c e f pos) (rw f)

  -- WriteToSymbol, for a symbol that has its handle and a value that writeToNode accepts, sends
  -- exactly the bytes that writeToNode makes, to that handle, and returns success or the ADS error
  -- as the code of the answer is 0 or not; nothing else has changed.
  pub write_to_symbol-sends :
      (bytes : List ℕ) (code : ℕ) (rest : List ℕ)
      → lookup name c.symbols ≡ some r
      → symbol_at r c.store ≡ some s
      → 0 < s.handle
      → write_to_node fmts c.datatypes (has_childs s) s.data_type s.length value ≡ ok bytes
      → code < 2 ^ 32
      → env.accepts c.sent ≡ true
      → env.reply (
          c.sent
          ++ (next_packet command_write (write_payload group_value_by_handle s.handle bytes) c
              ∷ []))
        ≡ some (pack (4 ∷ []) (code ∷ []) ++ rest)
      → write_to_symbol env fmts name value c ≡ (
        if code == 0 then ok tt else err (ads_error code),
        posted command_write (write_payload group_value_by_handle s.handle bytes) c,
      )
  write_to_symbol-sends bytes code rest e f pos w h a reply =
      write_to_symbol-cached e f pos
      ∙ unfold write_value write in
        rw w (
          rw
            (send_request-reply env command_write
              (write_payload group_value_by_handle s.handle bytes) c _ a reply)
            (rw (code_response-pack code rest h)))

  -- WriteToSymbol on a symbol without a handle panics when the context is done before the packet of
  -- the handle request is taken.
  pub write_to_symbol-unsent :
      lookup name c.symbols ≡ some r
      → symbol_at r c.store ≡ some s
      → s.handle ≡ 0
      → env.accepts c.sent ≡ false
      → write_to_symbol env fmts name value c ≡ (panic, registered c)
  unfolding write_to_symbol get_known get_handle_by_name uint32_of
  write_to_symbol-unsent e f no_handle unsent =
      let missing : (s.handle == 0) ≡ true = ground arith in
      rw (get_symbol-known env name r s c e f)
        (rw missing (rw (unsent_outcomes env c group_handle_by_name 0 4 0 0 0 0 name unsent).2))
