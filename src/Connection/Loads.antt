-- ===== src/Connection/Loads.antt =====
-- What Connect loads from a controller that answers.
use go_adstc.Prelude.{ℕ, ◌≡◌, ap, ◌∙◌, arith, List, [], ◌∷◌, ◌++◌}
use go_adstc.Prelude.{some, true, false, Bool, All, map, append-nil}
use go_adstc.Go.Result.{ok}
use go_adstc.Go.Binary.{pack, Fits}
use go_adstc.Ams.{command_read}
use go_adstc.Symbol.{Text, UploadType}
use go_adstc.Symbol.Upload.Written.{IsStruct, plained}
use go_adstc.Symbol.Upload.RoundTrip.{types_bytes, filed, parse_data_types-types_bytes}
use go_adstc.Conn.{Env, Conn, next_packet}
use go_adstc.Command.{response_layout, read}
use go_adstc.Command.Replies.{posted, read_payload, read-reply}
use go_adstc.SymbolTable.Ranked.{IsRanked}
use go_adstc.SymbolTable.Written.{Written, symbols_bytes, IsWritten}
use go_adstc.SymbolTable.Total.{IsShallow, IsFound, parse_symbols_total}
use go_adstc.Client.{UploadInfo, info_layout, group_upload_info, group_data_type_upload}
use go_adstc.Client.{group_symbol_upload, get_upload_symbol_info_symbols}
use go_adstc.Client.{get_upload_symbol_info_data_types}
use go_adstc.Client.Watch.{info_values, get_symbol_upload_info-pack}
use go_adstc.Connection.{load, start_up, connect, dial_address}

-- The question for some bytes of the controller, and its answer without error.
module _ (env : Env) (accepts : (sent : List (List ℕ)) → env.accepts sent ≡ true) where
  abbrev pub Answers : Conn → ℕ → ℕ → List ℕ → Type 0
  Answers c group size bytes =
      env.reply (c.sent ++ (next_packet command_read (read_payload group 0 size) c ∷ []))
      ≡ some (pack response_layout (0 ∷ 0 ∷ []) ++ bytes)

  abbrev pub asked : ℕ → ℕ → Conn → Conn
  asked group size c = posted command_read (read_payload group 0 size) c

  read_answered :
      (group size : ℕ) (bytes : List ℕ) (c : Conn)
      → Answers c group size bytes
      → read env group 0 size c ≡ (ok bytes, asked group size c)
  read_answered group size bytes c a =
      read-reply env group 0 size c 0 0 bytes (omega arith) (omega arith) (accepts c.sent) a

  module _ (c : Conn) (info : UploadInfo) (ts : List UploadType) (ws : List Written)
      (rank : Text → ℕ) where
    abbrev dialed_client : Conn
    dialed_client = record c { connected = true }

    abbrev pub with_info : Conn
    with_info = asked group_upload_info 24 dialed_client

    abbrev pub with_types : Conn
    with_types = record (asked group_data_type_upload info.data_type_length with_info) {
      datatypes = filed (map plained ts) [];
    }

    abbrev pub with_bytes : Conn
    with_bytes = asked group_symbol_upload info.symbol_length with_types

    -- Connect with a remote address, when the dialling succeeds, the controller takes every request
    -- and answers the three reads with the sizes, an upload of data types and an upload of symbols,
    -- where the sizes fit their fields, the entries of both uploads have numbers that fit their
    -- fields and give the true lengths and counts, no data type and no member is an array, the
    -- members of a type have different names, each data type has a higher rank than the types of
    -- its members, which have names, and the types of the symbols have ranks up to the number of
    -- types, succeeds; the data types of the connection are then those of the upload and every
    -- symbol of the upload has its name in the map of symbols, where type names that begin with
    -- STRING are read as STRING.
    pub connect_loads :
        (dial : Text → Bool)
        → dial (dial_address env c) ≡ true
        → Answers c group_upload_info 24 (pack info_layout (info_values info))
        → Answers with_info group_data_type_upload info.data_type_length (types_bytes ts)
        → Answers with_types group_symbol_upload info.symbol_length (symbols_bytes ws)
        → Fits info_layout (info_values info)
        → All IsStruct ts
        → (ranked : IsRanked rank (filed (map plained ts) [])) → All IsWritten ws
        → All (IsShallow env rank (filed (map plained ts) []) ranked) ws
        → (d : Conn) × (connect env dial false c ≡ (ok tt, d))
          × (d.datatypes ≡ filed (map plained ts) [])
          × All (IsFound env rank (filed (map plained ts) []) ranked d.symbols) ws
    unfolding connect start_up load get_upload_symbol_info_data_types get_upload_symbol_info_symbols
    connect_loads dial dialed a1 a2 a3 fits structs ranked written shallow =
        let (m, d, run, found, g) =
          parse_symbols_total env rank (filed (map plained ts) []) ranked ws with_bytes written
            shallow in
        let padded : pack info_layout (info_values info)
            ≡ pack info_layout (info_values info) ++ [] =
          rw append-nil in
        (
          record d { symbols = m },
          rw dialed (
              rw
                (get_symbol_upload_info-pack env dialed_client info 0 [] fits (omega arith)
                  (accepts c.sent)
                  (a1 ∙ ap (λ (b : List ℕ). some (pack response_layout (0 ∷ 0 ∷ []) ++ b)) padded))
                (rw
                  (read_answered group_data_type_upload info.data_type_length (types_bytes ts)
                    with_info a2)
                  (rw (parse_data_types-types_bytes ts structs) (
                    rw
                      (read_answered group_symbol_upload info.symbol_length (symbols_bytes ws)
                        with_types a3)
                      (rw run))))),
          ap (λ (x : Conn). x.datatypes) g.2,
          found,
        )
