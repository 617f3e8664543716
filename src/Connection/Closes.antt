-- ===== src/Connection/Closes.antt =====
-- What Close gives back to a controller that answers.
use go_adstc.Prelude.{Bool, ap, ℕ, ◌≡◌, refl, ◌∙◌, arith, List, [], ◌∷◌, ◌++◌}
use go_adstc.Prelude.{Option, none, some, true, ◌==◌, if◌then◌else◌, inl, inr, Bool-cases}
use go_adstc.Go.Result.{Result, ok}
use go_adstc.Go.Binary.{pack}
use go_adstc.Go.Bytes.{to_le}
use go_adstc.Ams.{command_delete_device_notification, command_write}
use go_adstc.Symbol.{Symbol}
use go_adstc.Symbol.Store.{symbol_at}
use go_adstc.Conn.{Env, Conn, continue}
use go_adstc.Command.{write, delete_device_notification, remove_handle}
use go_adstc.Command.Replies.{posted, write_payload, send_request-reply}
use go_adstc.Client.Handles.{code_response-pack}
use go_adstc.SymbolTable.{References}
use mathlib.Core.Path.{subst}
use go_adstc.Connection.Handles.{Within, Within-self, Within-remove_handle}
use go_adstc.Connection.Packets.{Request, packets, Went, Went-none, Went-posted, Went-trans}
use go_adstc.Connection.{
  group_release_handle, delete_all, release, release_all, close, hang_up, close_socket,
}

-- The request that deletes each handle of the map: command 7.
abbrev pub deletions : List (ℕ × ℕ) → List Request
deletions [] = []
deletions ((handle, r) ∷ more) = (7, to_le 4 handle) ∷ deletions more

-- The request that releases the handle of a symbol, if it has one: a write of the four bytes of the
-- handle to the group 0xf006.
abbrev release_of : Option Symbol → List Request
release_of none = []
release_of (some s) =
    if s.handle == 0
    then []
    else (3, to_le 4 0xf006 ++ to_le 4 0 ++ to_le 4 4 ++ to_le 4 s.handle) ∷ []

abbrev pub releases : List Symbol → References → List Request
releases store [] = []
releases store ((name, r) ∷ more) = release_of (symbol_at r store) ++ releases store more

module _ (env : Env) (accepts : (sent : List (List ℕ)) → env.accepts sent ≡ true)
    (answers : (sent : List (List ℕ)) → env.reply sent ≡ some (pack (4 ∷ []) (0 ∷ []) ++ [])) where
  abbrev deleted : ℕ → Conn → Conn
  deleted handle c =
      let asked = posted command_delete_device_notification (pack (4 ∷ []) (handle ∷ [])) c in
      record asked { active_notifications = remove_handle handle asked.active_notifications }

  delete_answered :
      (handle : ℕ) (c : Conn) → delete_device_notification env handle c ≡ (ok tt, deleted handle c)
  unfolding delete_device_notification
  delete_answered handle c =
      rw
        (send_request-reply env command_delete_device_notification (pack (4 ∷ []) (handle ∷ [])) c _
          (accepts c.sent) (answers _))
        (rw (code_response-pack 0 [] (omega arith)))

  deleted-Went : (handle : ℕ) (c : Conn) → Went c (deleted handle c) ((7, to_le 4 handle) ∷ [])
  unfolding pack to_le
  deleted-Went handle c =
      let went = Went-posted 7 (to_le 4 handle) c in
      record { sent = went.sent; id = went.id; target = went.target; source = went.source }

  -- The handles are deleted, one request for each, and nothing is done to the symbols.
  delete_all_lem :
      (hs : List (ℕ × ℕ)) (c : Conn)
      → Within hs c.active_notifications
      → (d : Conn) × (delete_all env hs c ≡ (ok tt, d))
        × (d.active_notifications ≡ [])
        × Went c d (deletions hs)
        × (d.store ≡ c.store)
        × (d.symbols ≡ c.symbols)
        × (d.connected ≡ c.connected)
  unfolding delete_all
  delete_all_lem [] c w = (c, refl, nothing c.active_notifications w, Went-none c, refl, refl, refl)
    where
      nothing : (m : List (ℕ × ℕ)) → Within [] m → m ≡ []
      nothing [] h = refl
      nothing (x ∷ more) h = absurd h.0
  delete_all_lem ((handle, r) ∷ hs) c w =
      let c' : Conn = deleted handle c in
      let (d, run, none_left, sent, store, symbols, connected) =
        delete_all_lem hs c' (Within-remove_handle handle r hs c.active_notifications w) in
      (
        d,
        rw (delete_answered handle c) run,
        none_left,
        Went-trans c c' d ((7, to_le 4 handle) ∷ []) (deletions hs) (deleted-Went handle c) sent,
        store,
        symbols,
        connected,
      )

  -- The symbols of the map are there.
  abbrev pub AreThere : List Symbol → References → Type 0
  AreThere store [] = Unit {0}
  AreThere store ((name, r) ∷ more) =
      ((s : Symbol) × (symbol_at r store ≡ some s)) × AreThere store more

  released-Went :
      (handle : ℕ) (c : Conn)
      → Went c
          (posted command_write (write_payload group_release_handle 0 (to_le 4 handle)) c)
          ((3, to_le 4 0xf006 ++ to_le 4 0 ++ to_le 4 4 ++ to_le 4 handle) ∷ [])
  unfolding pack to_le
  released-Went handle c =
      Went-posted command_write (write_payload group_release_handle 0 (to_le 4 handle)) c

  release_lem :
      (s : Symbol) (c : Conn)
      → (d : Conn) × (release env s c ≡ (ok tt, d))
        × (d.active_notifications ≡ c.active_notifications)
        × Went c d (release_of (some s))
        × (d.store ≡ c.store)
        × (d.connected ≡ c.connected)
  unfolding release write
  release_lem s c = elim (Bool-cases (s.handle == 0)) [
    | inl free ↦ (c, rw free, refl, rw free (Went-none c), refl, refl)
    | inr taken ↦
        let payload : List ℕ = write_payload group_release_handle 0 (to_le 4 s.handle) in
        (
          posted command_write payload c,
          rw taken (
              rw (send_request-reply env command_write payload c _ (accepts c.sent) (answers _))
                (rw (code_response-pack 0 [] (omega arith)))),
          refl,
          rw taken (released-Went s.handle c),
          refl,
          refl,
        )
  ]

  release_all_lem :
      (rs : References) (c : Conn)
      → AreThere c.store rs
      → (d : Conn) × (release_all env rs c ≡ (ok tt, d))
        × (d.active_notifications ≡ c.active_notifications)
        × Went c d (releases c.store rs)
        × (d.connected ≡ c.connected)
  unfolding release_all
  release_all_lem [] c h = (c, refl, refl, Went-none c, refl)
  release_all_lem ((name, r) ∷ more) c ((s, at), others) =
      let (c', run, same, sent, store, connected) = release_lem s c in
      let (d, run', same', sent', connected') = release_all_lem more c' (rw store others) in
      let rest : releases c'.store more ≡ releases c.store more = rw store in
      let went : Went c d (release_of (some s) ++ releases c.store more) =
        Went-trans c c' d (release_of (some s)) (releases c.store more) sent
          (subst (Went c' d) rest sent') in
      (d, rw at (rw run run'), same' ∙ same, rw at went, connected' ∙ connected)

  hang_up_lem :
      (d : Conn) (r : Result (Unit {0}) × Conn) (connected : Bool)
      → r ≡ (ok tt, d)
      → d.connected ≡ connected
      → continue r (λ _. hang_up env) ≡ close_socket env connected (record d { shut_down = true })
  unfolding hang_up
  hang_up_lem d r connected run h =
      ap (λ (x : Result (Unit {0}) × Conn). continue x (λ _. hang_up env)) run
      ∙ ap (λ (b : Bool). close_socket env b (record d { shut_down = true })) h

  -- When the controller takes every request and answers each with the code 0, Close, on a map of
  -- symbols whose objects are all there, shuts the workers down, with no active notification left;
  -- the packets that it sent are, numbered on from the last invoke id, the deletion of the handle
  -- of each active notification and then, for each symbol of the map that holds a handle, the write
  -- of that handle to the group that releases handles, in the order of the maps; then it returns if
  -- there is a connection to close, and panics if there is none.
  pub close_gives_back :
      (c : Conn)
      → AreThere c.store c.symbols
      → (d : Conn) × (close env c ≡ close_socket env c.connected d)
        × (d.shut_down ≡ true)
        × (d.active_notifications ≡ [])
        × (d.sent
            ≡ c.sent
              ++ packets c.target c.source c.current_request
                  (deletions c.active_notifications ++ releases c.store c.symbols))
  unfolding close
  close_gives_back c there =
      let (c', run, none_left, sent, store, symbols, connected) =
        delete_all_lem c.active_notifications c (Within-self c.active_notifications) in
      let (d, run', same, sent', connected') =
        release_all_lem c'.symbols c' (rw (store, symbols) there) in
      let same_releases : releases c'.store c'.symbols ≡ releases c.store c.symbols =
        rw (store, symbols) in
      let went : Went c d (deletions c.active_notifications ++ releases c.store c.symbols) =
        Went-trans c c' d (deletions c.active_notifications) (releases c.store c.symbols) sent
          (subst (Went c' d) same_releases sent') in
      (
        record d { shut_down = true },
        rw run (
            hang_up_lem d (release_all env c'.symbols c') c.connected run'
              (connected' ∙ connected)),
        refl,
        same ∙ none_left,
        went.sent,
      )
