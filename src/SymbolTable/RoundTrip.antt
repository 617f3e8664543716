-- ===== src/SymbolTable/RoundTrip.antt =====
-- ParseUploadSymbolInfoSymbols on a whole upload, and on one that was cut off.
use go_adstc.Prelude.{
  ℕ, zero, suc, ◌-◌, ◌<◌, ◌≡◌, refl, ap, ◌∙◌, arith, List, [], ◌∷◌, ◌++◌, length, length-append,
}
use go_adstc.Prelude.{Option, none, All, lt→ltb}
use go_adstc.Go.Result.{Result, ok, err, panic}
use go_adstc.Go.Binary.{read_over_short}
use go_adstc.Symbol.{lookup, insert}
use go_adstc.Symbol.Store.{symbol_at_new}
use go_adstc.Symbol.Upload.{read_terminated, read_text}
use go_adstc.Conn.{Env, Conn, M, continue, pure, now}
use go_adstc.SymbolTable.{Types, References, UploadSymbol, symbol_layout, symbol_entry_of}
use go_adstc.SymbolTable.{
  zero_symbol_entry, read_symbol, symbol_after, skip_entry, enter, parse_round,
}
use go_adstc.SymbolTable.{parse_symbols_loop, parse_symbols, add_symbol, alloc, attach, add_childs}
use go_adstc.SymbolTable.{top, add_childs_loop, plain_symbol_type}
use go_adstc.SymbolTable.Written.{Written, symbols_bytes, IsWritten, as_read, enter_all}
use go_adstc.SymbolTable.Written.{parse_round-symbol_bytes, length-symbol_bytes}

continue-pure :
    {A B C : Type 0} (r : Result A × Conn) (b : B) (f : A × B → M C)
    → continue (continue r (λ a. pure (a, b))) f ≡ continue r (λ a. f (a, b))
continue-pure (ok a, c) b f = refl
continue-pure (err e, c) b f = refl
continue-pure (panic, c) b f = refl

continue-cong :
    {A B : Type 0} (r : Result A × Conn) (f g : A → M B)
    → ((a : A) (c : Conn) → f a c ≡ g a c)
    → continue r f ≡ continue r g
continue-cong (ok a, c) f g h = h a c
continue-cong (err e, c) f g h = refl
continue-cong (panic, c) f g h = refl

module _ (env : Env) (types : Types) where
  parse_symbols_loop_step :
      (fuel : ℕ) (buf : List ℕ) (symbols : References) (c : Conn)
      → 0 < length buf
      → parse_symbols_loop env types (suc fuel) buf symbols c
        ≡ continue
            (parse_round env types buf symbols c)
            (λ r. parse_symbols_loop env types fuel r.1 r.0)
  unfolding parse_symbols_loop
  parse_symbols_loop_step fuel [] symbols c h = absurd (omega arith)
  parse_symbols_loop_step fuel (b ∷ bs) symbols c h = refl

  parse_symbols_loop-symbols_bytes :
      (ws : List Written) (fuel : ℕ) (symbols : References) (c : Conn)
      → All IsWritten ws
      → length (symbols_bytes ws) < fuel
      → parse_symbols_loop env types fuel (symbols_bytes ws) symbols c
        ≡ enter_all env types ws symbols c
  parse_symbols_loop-symbols_bytes ws zero symbols c h lt = absurd (omega arith)
  parse_symbols_loop-symbols_bytes [] (suc fuel) symbols c h lt = unfold parse_symbols_loop in refl
  parse_symbols_loop-symbols_bytes ((item, extra) ∷ ws) (suc fuel) symbols c h lt =
      let size = length-symbol_bytes item extra (symbols_bytes ws) in
      parse_symbols_loop_step fuel (symbols_bytes ((item, extra) ∷ ws)) symbols c
        (omega (arith, size))
      ∙ ap
          (λ (m : M (References × List ℕ)).
            continue (m c) (λ r. parse_symbols_loop env types fuel r.1 r.0))
          (parse_round-symbol_bytes env types item extra (symbols_bytes ws) symbols h.0)
      ∙ continue-pure (enter env types (as_read item) symbols c) (symbols_bytes ws)
          (λ r. parse_symbols_loop env types fuel r.1 r.0)
      ∙ continue-cong (enter env types (as_read item) symbols c)
          (parse_symbols_loop env types fuel (symbols_bytes ws)) (enter_all env types ws)
          (λ symbols' d.
            parse_symbols_loop-symbols_bytes ws fuel symbols' d h.1
              (omega (arith, size, length-append extra (symbols_bytes ws))))

-- The upload of symbols whose entries have numbers that fit their fields and give the true lengths
-- is parsed as if the symbols of the list had been entered into the map one after another, each
-- with the name, comment and numbers that were written, and with the type that was written, or
-- STRING for a type that begins with STRING, whatever follows the texts in an entry.
pub parse_symbols-symbols_bytes :
    (env : Env) (types : Types) (ws : List Written) (c : Conn)
    → All IsWritten ws
    → parse_symbols env types (symbols_bytes ws) c ≡ enter_all env types ws [] c
unfolding parse_symbols
parse_symbols-symbols_bytes env types ws c h =
    parse_symbols_loop-symbols_bytes env types ws (suc (length (symbols_bytes ws))) [] c h
      (omega arith)

-- What is read of a buffer that is too short for an entry.
nothing : UploadSymbol
nothing = record { entry = zero_symbol_entry; name = []; data_type = []; comment = [] }

read_symbol_short : (buf : List ℕ) → length buf < 30 → read_symbol buf ≡ (nothing, [])
unfolding read_symbol nothing
read_symbol_short buf h =
    ap symbol_after (read_over_short symbol_layout symbol_entry_of zero_symbol_entry buf h)
    ∙ unfold symbol_after read_terminated read_text plain_symbol_type in refl

abbrev nothing_made : Env → Conn → Conn
nothing_made env c = record c {
  store = c.store ++ (top nothing (env.clock c.clock_reads) ∷ []);
  clock_reads = suc c.clock_reads;
}

enter-nothing :
    (env : Env) (types : Types) (c : Conn)
    → lookup [] types ≡ none
    → enter env types nothing [] c ≡ (ok (insert [] (length c.store) []), nothing_made env c)
unfolding enter add_symbol now alloc nothing attach add_childs add_childs_loop
enter-nothing env types c free =
    rw free (rw (symbol_at_new c.store (top nothing (env.clock c.clock_reads))))

-- An upload of symbols that begins with fewer than 30 bytes and ends there makes
-- ParseUploadSymbolInfoSymbols panic, if no data type has the empty name.
pub parse_symbols_cut :
    (env : Env) (types : Types) (bytes : List ℕ) (c : Conn)
    → lookup [] types ≡ none
    → 0 < length bytes
    → length bytes < 30
    → (parse_symbols env types bytes c).0 ≡ panic
unfolding parse_symbols parse_round skip_entry nothing
parse_symbols_cut env types bytes c free some_bytes short =
    let negative : skip_entry 0 (length bytes - 0) [] ≡ panic =
      unfold skip_entry in rw (lt→ltb 0 (length bytes - 0) (omega arith)) in
    ap (λ (r : Result (Option References) × Conn). r.0)
      (parse_symbols_loop_step env types (length bytes) bytes [] c some_bytes)
    ∙ rw (read_symbol_short bytes short) (rw (enter-nothing env types c free) (rw negative))
