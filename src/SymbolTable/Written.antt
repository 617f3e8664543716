-- ===== src/SymbolTable/Written.antt =====
-- The upload of symbols as a controller writes it, and an upload that was cut off.
use go_adstc.Prelude.{ℕ, ◌+◌, ◌-◌, ◌≡◌, ap, ◌∙◌, arith, List, [], ◌∷◌, ◌++◌}
use go_adstc.Prelude.{length, length-append, Option, some, false}
use go_adstc.Prelude.{drop-append_exact, ltb, le→ltb}
use go_adstc.Go.Result.{ok}
use go_adstc.Go.Binary.{pack, Fits, read_over-pack, length-pack}
use go_adstc.Symbol.{Text}
use go_adstc.Symbol.Upload.{read_terminated}
use go_adstc.Symbol.Upload.Node.{read_terminated-text}
use go_adstc.Conn.{Env, M, ◌>>=◌, pure}
use go_adstc.SymbolTable.{
  Types, References, SymbolEntry, UploadSymbol, symbol_layout, symbol_entry_of,
}
use go_adstc.SymbolTable.{
  zero_symbol_entry, plain_symbol_type, symbol_after, read_symbol, skip_entry,
}
use go_adstc.SymbolTable.{enter, parse_round}

abbrev pub entry_values : SymbolEntry → List ℕ
entry_values e =
    e.entry_length ∷ e.group ∷ e.offset ∷ e.size ∷ e.data_type ∷ e.flags ∷ e.name_length
    ∷ e.type_length ∷ e.comment_length ∷ []

-- A symbol, and what the controller writes behind its texts.
abbrev pub Written : Type 0
Written = UploadSymbol × List ℕ

unfoldable pub symbol_bytes : Written → List ℕ → List ℕ
symbol_bytes (item, extra) rest =
    pack symbol_layout (entry_values item.entry)
    ++ (item.name ++ (0 ∷ (item.data_type ++ (0 ∷ (item.comment ++ (0 ∷ (extra ++ rest)))))))

abbrev pub symbols_bytes : List Written → List ℕ
symbols_bytes [] = []
symbols_bytes (w ∷ ws) = symbol_bytes w (symbols_bytes ws)

-- The symbol as it is read: any type that begins with STRING is a STRING.
abbrev pub as_read : UploadSymbol → UploadSymbol
as_read item = record item { data_type = plain_symbol_type item.data_type }

-- The entry gives the true lengths, and its numbers fit.
abbrev pub IsWritten : Written → Type 0
IsWritten (item, extra) =
    Fits symbol_layout (entry_values item.entry)
    × (item.entry.name_length ≡ length item.name)
    × (item.entry.type_length ≡ length item.data_type)
    × (item.entry.comment_length ≡ length item.comment)
    × (item.entry.entry_length
        ≡ 33 + length item.name + length item.data_type + length item.comment + length extra)

-- The symbols, entered one after another.
abbrev pub enter_all : Env → Types → List Written → References → M (Option References)
enter_all env types [] symbols = pure (some symbols)
enter_all env types ((item, extra) ∷ ws) symbols =
    enter env types (as_read item) symbols >>= λ symbols'. enter_all env types ws symbols'

symbol_after_texts :
    (e : SymbolEntry) (b1 b2 b3 b4 n d c : List ℕ)
    → read_terminated e.name_length b1 ≡ (n, b2)
    → read_terminated e.type_length b2 ≡ (d, b3)
    → read_terminated e.comment_length b3 ≡ (c, b4)
    → symbol_after (e, b1)
      ≡ (record { entry = e; name = n; data_type = plain_symbol_type d; comment = c }, b4)
unfolding symbol_after
symbol_after_texts e b1 b2 b3 b4 n d c p q r = rw p (rw q (rw r))

read_symbol-symbol_bytes :
    (item : UploadSymbol) (extra rest : List ℕ)
    → IsWritten (item, extra)
    → read_symbol (symbol_bytes (item, extra) rest) ≡ (as_read item, extra ++ rest)
unfolding read_symbol symbol_bytes
read_symbol-symbol_bytes item extra rest h =
    let e : SymbolEntry = item.entry in
    let n : Text = item.name in
    let d : Text = item.data_type in
    let c : Text = item.comment in
    ap symbol_after (
      read_over-pack symbol_layout symbol_entry_of zero_symbol_entry (entry_values e)
        (n ++ (0 ∷ (d ++ (0 ∷ (c ++ (0 ∷ (extra ++ rest))))))) h.0)
    ∙ symbol_after_texts e (n ++ (0 ∷ (d ++ (0 ∷ (c ++ (0 ∷ (extra ++ rest)))))))
        (d ++ (0 ∷ (c ++ (0 ∷ (extra ++ rest))))) (c ++ (0 ∷ (extra ++ rest))) (extra ++ rest) n d c
        (ap (λ (k : ℕ). read_terminated k (n ++ (0 ∷ (d ++ (0 ∷ (c ++ (0 ∷ (extra ++ rest))))))))
            h.1
          ∙ read_terminated-text n (d ++ (0 ∷ (c ++ (0 ∷ (extra ++ rest))))))
        (ap (λ (k : ℕ). read_terminated k (d ++ (0 ∷ (c ++ (0 ∷ (extra ++ rest)))))) h.2
          ∙ read_terminated-text d (c ++ (0 ∷ (extra ++ rest))))
        (ap (λ (k : ℕ). read_terminated k (c ++ (0 ∷ (extra ++ rest)))) h.3
          ∙ read_terminated-text c (extra ++ rest))

pub length-symbol_bytes :
    (item : UploadSymbol) (extra rest : List ℕ)
    → length (symbol_bytes (item, extra) rest)
      ≡ 33 + length item.name + length item.data_type + length item.comment + length (extra ++ rest)
unfolding symbol_bytes
length-symbol_bytes item extra rest = omega (
  arith,
  length-append (pack symbol_layout (entry_values item.entry))
      (item.name ++ (0 ∷ (item.data_type ++ (0 ∷ (item.comment ++ (0 ∷ (extra ++ rest))))))),
  length-append item.name (0 ∷ (item.data_type ++ (0 ∷ (item.comment ++ (0 ∷ (extra ++ rest)))))),
  length-append item.data_type (0 ∷ (item.comment ++ (0 ∷ (extra ++ rest)))),
  length-append item.comment (0 ∷ (extra ++ rest)),
  length-pack symbol_layout (entry_values item.entry),
)

skip_entry_exact :
    (n consumed : ℕ) (extra rest : List ℕ)
    → n ≡ consumed + length extra
    → skip_entry n consumed (extra ++ rest) ≡ ok rest
unfolding skip_entry
skip_entry_exact n consumed extra rest e =
    let enough : ltb n consumed ≡ false = le→ltb _ _ (omega arith) in
    let more : n - consumed ≡ length extra = omega arith in rw (enough, more, drop-append_exact)

pub parse_round-symbol_bytes :
    (env : Env) (types : Types) (item : UploadSymbol) (extra rest : List ℕ) (symbols : References)
    → IsWritten (item, extra)
    → parse_round env types (symbol_bytes (item, extra) rest) symbols
      ≡ (enter env types (as_read item) symbols >>= λ symbols'. pure (symbols', rest))
unfolding parse_round
parse_round-symbol_bytes env types item extra rest symbols h =
    let consumed : ℕ = length (symbol_bytes (item, extra) rest) - length (extra ++ rest) in
    rw (read_symbol-symbol_bytes item extra rest h) (
      rw (
        skip_entry_exact item.entry.entry_length consumed extra rest
          (omega (arith, length-symbol_bytes item extra rest, h.4))))
