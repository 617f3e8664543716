-- ===== src/Notification/Handle.antt =====
-- handleNotification of commandDeviceNotification.go: what a sample does to its symbol, and what is
-- offered to the receiver.
use go_adstc.Prelude.{ℕ, suc, ◌==◌, if◌then◌else◌, List, [], ◌∷◌, ◌++◌, length, Option, none, some}
use go_adstc.Go.Result.{Result, ok, err, panic}
use go_adstc.Go.Int.{ℤ}
use go_adstc.Symbol.{Text, Symbol}
use go_adstc.Symbol.Store.{change_at}
use go_adstc.Conn.{Conn, Env, M, ◌>>=◌, ◌>>◌, pure, lift, gets, modify}
use go_adstc.SymbolTable.Json.{Encoder}
use go_adstc.Value.{Formats}
use go_adstc.Value.Update.{deref, parse}
use go_adstc.Notification.{Event, notification_time, device_notification}

-- Update, with the arguments of time.Unix
pub record Update : Type 0 where
  pub variable : Text
  pub value : Text
  pub time_stamp : ℤ × ℤ

-- An update for the channel symbol.Notification.
abbrev pub Offer : Type 0
Offer = Option ℕ × Update

-- conn.activeNotifications[handle]
abbrev pub receiver_of : ℕ → List (ℕ × ℕ) → Option ℕ
receiver_of h [] = none
receiver_of h ((j, r) ∷ m) = if j == h then some r else receiver_of h m

abbrev pub with_text : Text → Symbol → Symbol
with_text value s = record s { value = value }

-- An error of parse is only logged.
abbrev pub unless_error : {A : Type 0} → Result A × Conn → Result (Option A) × Conn
unless_error (ok a, c) = (ok (some a), c)
unless_error (err e, c) = (ok none, c)
unless_error (panic, c) = (panic, c)

module _ (env : Env) (enc : Encoder) (fmts : Formats) where
  unfoldable pub offer_value : ℕ → ℕ → Option Text → M (List Offer)
  offer_value r timestamp none = pure []
  offer_value r timestamp (some value) = do
    modify (λ c. record c { store = change_at r (with_text value) c.store })
    s ← deref r
    pure (
        (
          s.notification,
          record {
            variable = s.full_name;
            value = value;
            time_stamp = notification_time timestamp;
          },
        )
        ∷ [])

  unfoldable pub update_symbol : ℕ → List ℕ → Option ℕ → M (List Offer)
  update_symbol timestamp content none = pure []
  update_symbol timestamp content (some r) = do
    depth ← gets (λ c. suc (length c.store))
    value ← (λ c. unless_error (parse env enc fmts depth r content 0 c))
    offer_value r timestamp value

  -- handleNotification: the update that it offers, if there is one. A handle that is not known, and
  -- data that cannot be parsed, are only logged.
  unfoldable pub handle_notification : Event → M (List Offer)
  handle_notification e = do
    r ← gets (λ c. receiver_of e.handle c.active_notifications)
    update_symbol e.timestamp e.content r

  -- The calls of handleNotification, one after another, and DeviceNotification with them.
  unfoldable pub handle_events : List Event → M (List Offer)
  handle_events [] = pure []
  handle_events (e ∷ es) = do
    offers ← handle_notification e
    more ← handle_events es
    pure (offers ++ more)

  unfoldable pub notified : List ℕ → M (List Offer)
  notified bytes = do events ← lift (device_notification bytes); handle_events events
