-- ===== src/Connection/Keeps.antt =====
-- The commands and the methods of the client keep every invariant of the store.
use go_adstc.Prelude.{ℕ, suc, refl, List, [], ◌∷◌, ◌++◌, length, Option, none, some}
use go_adstc.Prelude.{Bool, true, false, ◌==◌, if◌then◌else◌}
use go_adstc.Go.Result.{Result, ok, err, panic, aborted, no_symbol}
use go_adstc.Symbol.{Text, Symbol, lookup}
use go_adstc.Symbol.Store.{symbol_at, change_at, with_handle, with_receiver}
use go_adstc.Conn.{Env, Conn, M, continue, pure, send_request, await, registered, now}
use go_adstc.Conn.{next_packet}
use go_adstc.Command.{code_response}
use go_adstc.Client.{has_childs}
use go_adstc.Value.{write_to_node}
use go_adstc.Command.{read, write, write_read, add_device_notification, delete_device_notification}
use go_adstc.SymbolTable.Json.{Encoder}
use go_adstc.Value.{Formats}
use go_adstc.Value.Update.{deref, ignored, parse}
use go_adstc.Client.{get_handle_by_name, get_known, get_symbol, write_value, write_to_symbol, watch}
use go_adstc.Client.{
  add_symbol_notification, with_read, read_value, read_or_cached, read_from_symbol,
}
use go_adstc.Notification.{Event, device_notification}
use go_adstc.Notification.Handle.{receiver_of, with_text, unless_error, offer_value, update_symbol}
use go_adstc.Notification.Handle.{handle_notification, handle_events, notified}
use go_adstc.Connection.Invariant.{Invariant}

module _ (P : List Symbol → Type 0) where
  abbrev Holds : Conn → Type 0
  Holds c = P c.store

  -- A call that keeps it, whatever comes of it.
  abbrev pub Keeps : {A : Type 0} → M A → Type 0
  Keeps m = (c : Conn) → Holds c → Holds (m c).1

  pub continue-Keeps :
      {A B : Type 0} (r : Result A × Conn) (f : A → M B)
      → Holds r.1
      → ((a : A) → Keeps (f a))
      → Holds (continue r f).1
  continue-Keeps (ok a, d) f h k = k a d h
  continue-Keeps (err e, d) f h k = h
  continue-Keeps (panic, d) f h k = h

  -- The result of a call is looked at, and not its state.
  pub ignored-Keeps : {A : Type 0} (r : Result A × Conn) → Holds r.1 → Holds (ignored r).1
  ignored-Keeps (ok a, d) h = h
  ignored-Keeps (err e, d) h = h
  ignored-Keeps (panic, d) h = h

  pub either-Keeps :
      {A : Type 0} (b : Bool) (m n : M A) → Keeps m → Keeps n → Keeps (if b then m else n)
  either-Keeps true m n h k = h
  either-Keeps false m n h k = k

  module _ (env : Env) (inv : Invariant env P) where
    abbrev replied_with : Option (List ℕ) → M (List ℕ)
    replied_with o c = elim o [ none ↦ (err aborted, c) | some r ↦ (ok r, c) ]

    await-Keeps : Keeps (await env)
    unfolding await
    await-Keeps c h = replied (env.reply c.sent)
      where
        replied : (o : Option (List ℕ)) → Holds (replied_with o c).1
        replied none = h
        replied (some r) = h

    abbrev out : ℕ → List ℕ → Conn → Conn
    out command payload c = record (registered c) {
      sent = c.sent ++ (next_packet command payload c ∷ []);
    }

    send_request-Keeps : (command : ℕ) (payload : List ℕ) → Keeps (send_request env command payload)
    unfolding send_request
    send_request-Keeps command payload c h = taken_or_not (env.accepts c.sent)
      where
        taken_or_not :
            (b : Bool)
            → Holds (if b then await env (out command payload c) else (ok [], registered c)).1
        taken_or_not true = await-Keeps (out command payload c) h
        taken_or_not false = h

    pub read-Keeps : (group offset size : ℕ) → Keeps (read env group offset size)
    unfolding read
    read-Keeps group offset size c h =
        continue-Keeps (send_request env _ _ c) _ (send_request-Keeps _ _ c h) (λ _ d k. k)

    pub write-Keeps : (group offset : ℕ) (payload : List ℕ) → Keeps (write env group offset payload)
    unfolding write
    write-Keeps group offset payload c h =
        continue-Keeps (send_request env _ _ c) _ (send_request-Keeps _ _ c h) (λ _ d k. k)

    write_read-Keeps :
        (group offset size : ℕ) (payload : List ℕ)
        → Keeps (write_read env group offset size payload)
    unfolding write_read
    write_read-Keeps group offset size payload c h =
        continue-Keeps (send_request env _ _ c) _ (send_request-Keeps _ _ c h) (λ _ d k. k)

    add_device_notification-Keeps :
        (group offset size mode delay cycle : ℕ)
        → Keeps (add_device_notification env group offset size mode delay cycle)
    unfolding add_device_notification
    add_device_notification-Keeps group offset size mode delay cycle c h =
        continue-Keeps (send_request env _ _ c) _ (send_request-Keeps _ _ c h) (λ _ d k. k)

    pub delete_device_notification-Keeps :
        (handle : ℕ) → Keeps (delete_device_notification env handle)
    unfolding delete_device_notification
    delete_device_notification-Keeps handle c h =
        continue-Keeps (send_request env _ _ c) _ (send_request-Keeps _ _ c h)
          (λ resp d k. continue-Keeps (code_response resp, d) _ k (λ _ e l. l))

    get_known-Keeps : (name : Text) (r : ℕ) (o : Option Symbol) → Keeps (get_known env name r o)
    unfolding get_known get_handle_by_name
    get_known-Keeps name r none c h = h
    get_known-Keeps name r (some s) c h =
        either-Keeps (s.handle == 0) _ _
          (λ d k.
            continue-Keeps (get_handle_by_name env name d) _
              (continue-Keeps (write_read env _ _ _ name d) _ (write_read-Keeps _ _ _ name d k)
                (λ _ e l. l))
              (λ handle e l. inv.change r (with_handle handle) e.store (λ _. refl) l))
          (λ d k. k) c h

    abbrev known_as : Text → Option ℕ → M ℕ
    known_as name o c = elim o [
      | none ↦ (err no_symbol, c)
      | some r ↦ get_known env name r (symbol_at r c.store) c
    ]

    pub get_symbol-Keeps : (name : Text) → Keeps (get_symbol env name)
    unfolding get_symbol
    get_symbol-Keeps name c h = found (lookup name c.symbols)
      where
        found : (o : Option ℕ) → Holds (known_as name o c).1
        found none = h
        found (some r) = get_known-Keeps name r (symbol_at r c.store) c h

    write_value-Keeps :
        (fmts : Formats) (value : Text) (o : Option Symbol) → Keeps (write_value env fmts value o)
    unfolding write_value
    write_value-Keeps fmts value none c h = h
    write_value-Keeps fmts value (some s) c h =
        continue-Keeps (write_to_node fmts c.datatypes (has_childs s) s.data_type s.length value, c)
          _ h (λ bytes. write-Keeps _ _ bytes)

    pub write_to_symbol-Keeps :
        (fmts : Formats) (name value : Text) → Keeps (write_to_symbol env fmts name value)
    unfolding write_to_symbol
    write_to_symbol-Keeps fmts name value c h =
        continue-Keeps (get_symbol env name c) _ (get_symbol-Keeps name c h)
          (λ r d. write_value-Keeps fmts value (symbol_at r d.store) d)

    watch-Keeps : (channel r : ℕ) (o : Option Symbol) → Keeps (watch env channel r o)
    unfolding watch
    watch-Keeps channel r none c h = h
    watch-Keeps channel r (some s) c h =
        continue-Keeps (add_device_notification env _ _ _ _ _ _ c) _
          (add_device_notification-Keeps _ _ _ _ _ _ c h)
          (λ handle d. inv.change r (with_receiver channel) d.store (λ _. refl))

    pub add_symbol_notification-Keeps :
        (name : Text) (channel : ℕ) → Keeps (add_symbol_notification env name channel)
    unfolding add_symbol_notification
    add_symbol_notification-Keeps name channel c h =
        continue-Keeps (get_symbol env name c) _ (get_symbol-Keeps name c h)
          (λ r d. watch-Keeps channel r (symbol_at r d.store) d)

    module _ (enc : Encoder) (fmts : Formats) where
      read_value-Keeps : (r time : ℕ) (s : Symbol) → Keeps (read_value env enc fmts r time s)
      unfolding read_value
      read_value-Keeps r time s c h =
          continue-Keeps (read env _ _ _ c) _ (read-Keeps _ _ _ c h) (λ bytes d k.
            continue-Keeps (parse env enc fmts (suc (length d.store)) r bytes 0 d) _
              (inv.parsed enc fmts (suc (length d.store)) r bytes 0 d k)
              (λ value e. inv.change r (with_read value time) e.store (λ _. refl)))

      read_or_cached-Keeps :
          (r time : ℕ) (s : Symbol) → Keeps (read_or_cached env enc fmts r time s)
      unfolding read_or_cached
      read_or_cached-Keeps r time s =
          either-Keeps _ (pure s.value) (read_value env enc fmts r time s) (λ c h. h)
            (read_value-Keeps r time s)

      pub read_from_symbol-Keeps : (name : Text) → Keeps (read_from_symbol env enc fmts name)
      unfolding read_from_symbol now
      read_from_symbol-Keeps name c h =
          continue-Keeps (get_symbol env name c) _ (get_symbol-Keeps name c h) (λ r d k.
            continue-Keeps (deref r d) _ k (λ s e.
              read_or_cached-Keeps r (env.clock e.clock_reads) s
                (record e { clock_reads = suc e.clock_reads })))

      offer_value-Keeps :
          (r timestamp : ℕ) (o : Option Text) → Keeps (offer_value env enc fmts r timestamp o)
      unfolding offer_value
      offer_value-Keeps r timestamp none c h = h
      offer_value-Keeps r timestamp (some value) c h =
          let d : Conn = record c { store = change_at r (with_text value) c.store } in
          continue-Keeps (deref r d) _ (inv.change r (with_text value) c.store (λ _. refl) h)
            (λ s e k. k)

      unless_error-Keeps : {A : Type 0} (r : Result A × Conn) → Holds r.1 → Holds (unless_error r).1
      unless_error-Keeps (ok a, d) h = h
      unless_error-Keeps (err e, d) h = h
      unless_error-Keeps (panic, d) h = h

      update_symbol-Keeps :
          (timestamp : ℕ) (content : List ℕ) (o : Option ℕ)
          → Keeps (update_symbol env enc fmts timestamp content o)
      unfolding update_symbol
      update_symbol-Keeps timestamp content none c h = h
      update_symbol-Keeps timestamp content (some r) c h =
          let run : Result Text × Conn = parse env enc fmts (suc (length c.store)) r content 0 c in
          continue-Keeps (unless_error run) _
            (unless_error-Keeps run (inv.parsed enc fmts (suc (length c.store)) r content 0 c h))
            (λ o. offer_value-Keeps r timestamp o)

      handle_events-Keeps : (es : List Event) → Keeps (handle_events env enc fmts es)
      unfolding handle_events handle_notification
      handle_events-Keeps [] c h = h
      handle_events-Keeps (e ∷ es) c h =
          continue-Keeps (handle_notification env enc fmts e c) _
            (update_symbol-Keeps e.timestamp e.content (receiver_of e.handle c.active_notifications)
              c h)
            (λ offers d k.
              continue-Keeps (handle_events env enc fmts es d) _ (handle_events-Keeps es d k)
                (λ more f l. l))

      pub notified-Keeps : (bytes : List ℕ) → Keeps (notified env enc fmts bytes)
      unfolding notified
      notified-Keeps bytes c h =
          continue-Keeps (device_notification bytes, c) _ h (λ events. handle_events-Keeps events)
