-- ===== src/Connection/Startup.antt =====
-- Connect and Close keep every invariant of the store.
use go_adstc.Prelude.{ℕ, List, [], ◌∷◌, Option, none, some, Bool, true, false}
use go_adstc.Prelude.{if◌then◌else◌, ◌==◌}
use go_adstc.Go.Result.{Result, ok, err, panic, aborted}
use go_adstc.Symbol.{Text, Symbol}
use go_adstc.Conn.{Env, Conn, M, ◌>>=◌, gets, modify, next_id}
use go_adstc.Command.{read, write, delete_device_notification}
use go_adstc.Symbol.Upload.{parse_data_types}
use go_adstc.Value.Update.{deref, ignored}
use go_adstc.Prelude.{◌++◌}
use go_adstc.SymbolTable.{References, parse_symbols}
use go_adstc.Connection.Invariant.{Invariant}
use go_adstc.Client.{get_symbol_upload_info, get_upload_symbol_info_data_types}
use go_adstc.Client.{get_upload_symbol_info_symbols, info_of, UploadInfo, wrapped}
use go_adstc.Connection.{or_none, or_else, send, await_system, ask_address, load}
use go_adstc.Connection.{
  start_up, connect, delete_all, release, release_all, close, hang_up, close_socket,
  address_request, to_local, dial_address,
}
use go_adstc.Connection.Keeps.{
  Keeps, continue-Keeps, ignored-Keeps, either-Keeps, read-Keeps, write-Keeps,
}
use go_adstc.Connection.Keeps.{delete_device_notification-Keeps}
use go_adstc.Connection.Uploads.{parse_symbols-Keeps}

module _ (env : Env) (P : List Symbol → Type 0) (inv : Invariant env P) where
  abbrev Holds : Conn → Type 0
  Holds c = P c.store

  or_else-Keeps : {A : Type 0} (a : A) (r : Result A × Conn) → Holds r.1 → Holds (or_else a r).1
  or_else-Keeps a (ok b, d) h = h
  or_else-Keeps a (err e, d) h = h
  or_else-Keeps a (panic, d) h = h

  abbrev system_with : Option (List ℕ) → M (List ℕ)
  system_with o c = elim o [ none ↦ (err aborted, c) | some r ↦ (ok r, c) ]

  send-Keeps : (bytes : List ℕ) → Keeps P (send env bytes)
  unfolding send await_system
  send-Keeps bytes c h = taken_or_not (env.accepts c.sent)
    where
      answered : (o : Option (List ℕ)) (d : Conn) → Holds d → Holds (system_with o d).1
      answered none d k = k
      answered (some r) d k = k

      taken_or_not :
          (b : Bool)
          → Holds
              (if b
                then await_system env
                    (record c { current_request = next_id c; sent = c.sent ++ (bytes ∷ []) })
                else (ok [], record c { current_request = next_id c })).1
      taken_or_not true =
          answered (env.reply (c.sent ++ (bytes ∷ [])))
            (record c { current_request = next_id c; sent = c.sent ++ (bytes ∷ []) }) h
      taken_or_not false = h

  ask_address-Keeps : Keeps P (ask_address env)
  unfolding ask_address
  ask_address-Keeps c h =
      continue-Keeps P (or_else [] (send env address_request c)) _
        (or_else-Keeps [] (send env address_request c) (send-Keeps address_request c h))
        (λ resp d k. k)

  wrapped-Keeps : (r : Result (List ℕ) × Conn) → Holds r.1 → Holds (wrapped r).1
  wrapped-Keeps (ok a, d) h = h
  wrapped-Keeps (err e, d) h = h
  wrapped-Keeps (panic, d) h = h

  load-Keeps : Keeps P (load env)
  unfolding load get_symbol_upload_info get_upload_symbol_info_data_types
      get_upload_symbol_info_symbols
  load-Keeps c h =
      continue-Keeps P (or_else (info_of []) (get_symbol_upload_info env c)) _
        (or_else-Keeps (info_of []) (get_symbol_upload_info env c)
          (continue-Keeps P (read env _ _ _ c) _ (read-Keeps P env inv _ _ _ c h) (λ _ d k. k)))
        (λ info d k.
          continue-Keeps P
            (or_else [] (get_upload_symbol_info_data_types env info.data_type_length d)) _
            (or_else-Keeps [] (get_upload_symbol_info_data_types env info.data_type_length d)
              (wrapped-Keeps (read env _ _ _ d) (read-Keeps P env inv _ _ _ d k)))
            (λ type_bytes e l.
              symbols_loaded info
                (record e { datatypes = or_none [] (parse_data_types type_bytes) }) l))
    where
      symbols_loaded :
          (info : UploadInfo)
          → Keeps P (do
            symbol_bytes ←
                (λ c. or_else [] (get_upload_symbol_info_symbols env info.symbol_length c))
            types ← gets (λ c. c.datatypes)
            symbols ← parse_symbols env types symbol_bytes
            modify (λ c. record c { symbols = or_none [] symbols }))
      symbols_loaded info d k =
          continue-Keeps P (or_else [] (get_upload_symbol_info_symbols env info.symbol_length d)) _
            (or_else-Keeps [] (get_upload_symbol_info_symbols env info.symbol_length d)
              (read-Keeps P env inv _ _ _ d k))
            (λ bytes e l.
              continue-Keeps P (parse_symbols env e.datatypes bytes e) _
                (parse_symbols-Keeps env P inv e.datatypes bytes e l) (λ _ f m. m))

  start_up-Keeps : (dialed is_local : Bool) → Keeps P (start_up env dialed is_local)
  unfolding start_up
  start_up-Keeps false is_local c h = h
  start_up-Keeps true false c h = load-Keeps c h
  start_up-Keeps true true c h =
      continue-Keeps P (ask_address env c) _ (ask_address-Keeps c h) (λ _. load-Keeps)

  pub connect-Keeps : (dial : Text → Bool) (is_local : Bool) → Keeps P (connect env dial is_local)
  unfolding connect
  connect-Keeps dial false c h =
      start_up-Keeps (dial (dial_address env c)) false
        (record c { connected = dial (dial_address env c) }) h
  connect-Keeps dial true c h =
      start_up-Keeps (dial (dial_address env (to_local env c))) true
        (record (to_local env c) { connected = dial (dial_address env (to_local env c)) }) h

  delete_all-Keeps : (hs : List (ℕ × ℕ)) → Keeps P (delete_all env hs)
  unfolding delete_all
  delete_all-Keeps [] c h = h
  delete_all-Keeps ((handle, r) ∷ more) c h =
      continue-Keeps P (ignored (delete_device_notification env handle c)) _
        (ignored-Keeps P (delete_device_notification env handle c)
          (delete_device_notification-Keeps P env inv handle c h))
        (λ _. delete_all-Keeps more)

  release-Keeps : (s : Symbol) → Keeps P (release env s)
  unfolding release
  release-Keeps s =
      either-Keeps P (s.handle == 0) _ _ (λ c h. h)
        (λ c h. ignored-Keeps P (write env _ _ _ c) (write-Keeps P env inv _ _ _ c h))

  release_all-Keeps : (symbols : References) → Keeps P (release_all env symbols)
  unfolding release_all
  release_all-Keeps [] c h = h
  release_all-Keeps ((name, r) ∷ more) c h = continue-Keeps P (deref r c) _ h (λ s d k.
      continue-Keeps P (release env s d) _ (release-Keeps s d k) (λ _. release_all-Keeps more))

  close_socket-Keeps : (connected : Bool) → Keeps P (close_socket env connected)
  close_socket-Keeps true c h = h
  close_socket-Keeps false c h = h

  hang_up-Keeps : Keeps P (hang_up env)
  unfolding hang_up
  hang_up-Keeps c h = close_socket-Keeps c.connected (record c { shut_down = true }) h

  pub close-Keeps : Keeps P (close env)
  unfolding close
  close-Keeps c h =
      continue-Keeps P (delete_all env c.active_notifications c) _
        (delete_all-Keeps c.active_notifications c h)
        (λ _ d k.
          continue-Keeps P (release_all env d.symbols d) _ (release_all-Keeps d.symbols d k)
            (λ _. hang_up-Keeps))
