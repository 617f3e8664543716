-- ===== src/Notification/Stale.antt =====
-- What a notification of a symbol without children offers to its receiver.
use go_adstc.Prelude.{ℕ, suc, ◌≡◌, [], ◌∷◌, length, some}
use go_adstc.Go.Result.{ok}
use go_adstc.Symbol.{Text, Symbol}
use go_adstc.Symbol.Store.{symbol_at, symbol_at-change_at}
use go_adstc.Conn.{Env, Conn}
use go_adstc.SymbolTable.Json.{Encoder}
use go_adstc.Value.{Formats, parse_leaf}
use go_adstc.Value.Update.{parse}
use go_adstc.Value.Update.Changed.{IsSound}
use go_adstc.Value.Update.Publish.{taken, Publishes, parse-Publishes}
use go_adstc.Notification.{Event, notification_time}
use go_adstc.Notification.Handle.{Offer, receiver_of, with_text, offer_value, update_symbol}
use go_adstc.Notification.Handle.{handle_notification}

-- What the receiver of a symbol gets.
abbrev pub offer_of : Symbol → Text → ℕ → Offer
offer_of s value timestamp = (
  s.notification,
  record { variable = s.full_name; value = value; time_stamp = notification_time timestamp },
)

module _ (env : Env) (enc : Encoder) (fmts : Formats) where
  offer_value-offer_of :
      (r timestamp : ℕ) (value : Text) (s t : Symbol) (d : Conn)
      → symbol_at r d.store ≡ some t
      → t.full_name ≡ s.full_name
      → t.notification ≡ s.notification
      → (offer_value env enc fmts r timestamp (some value) d).0
        ≡ ok (offer_of s value timestamp ∷ [])
  unfolding offer_value
  offer_value-offer_of r timestamp value s t d at named received =
      rw (symbol_at-change_at r (with_text value) d.store t at) (rw (named, received))

  -- For a known handle of a symbol without children, in a sound store, and a content that parse
  -- understands, handleNotification offers the value that parse finds in the content only when more
  -- than MinUpdateInterval has passed since the last update, and else offers the old value again;
  -- the receiver, the variable and the time stamp are those of the symbol and of the notification
  -- in both cases.
  pub handle_notification-taken :
      (e : Event) (r : ℕ) (value : Text) (s : Symbol) (c : Conn)
      → receiver_of e.handle c.active_notifications ≡ some r
      → symbol_at r c.store ≡ some s
      → s.childs ≡ []
      → IsSound c
      → parse_leaf fmts s.data_type s.length e.content 0 ≡ ok (some value)
      → (handle_notification env enc fmts e c).0
        ≡ ok (offer_of s (taken s value (env.clock c.clock_reads)) e.timestamp ∷ [])
  unfolding handle_notification update_symbol
  handle_notification-taken e r value s c known at leaf sound parsed =
      let new : Text = taken s value (env.clock c.clock_reads) in
      let (t, d, run, t_at, named, received) : Publishes r s new
          (parse env enc fmts (suc (length c.store)) r e.content 0 c) =
        parse-Publishes env enc fmts (length c.store) r e.content value s c at leaf sound parsed in
      rw known (rw run (offer_value-offer_of r e.timestamp new s t d t_at named received))
