-- ===== src/Connection/Packets.antt =====
-- The packets of requests that go out one after another.
use go_adstc.Prelude.{ℕ, ◌+◌, ◌%◌, ◌^◌, ◌≡◌, refl, ap, sym, ◌∙◌, List, [], ◌∷◌, ◌++◌}
use go_adstc.Prelude.{append_assoc, append-nil}
use go_adstc.Ams.{AmsAddress, encode}
use go_adstc.Conn.{Conn}
use go_adstc.Command.Replies.{posted}

-- The command and the payload of a request.
abbrev pub Request : Type 0
Request = ℕ × List ℕ

-- Each request has the id behind that of the one before.
abbrev pub packets : AmsAddress → AmsAddress → ℕ → List Request → List (List ℕ)
packets target source id [] = []
packets target source id ((command, payload) ∷ more) =
    let next : ℕ = (id + 1) % 2 ^ 32 in
    encode target source command payload next ∷ packets target source next more

abbrev pub last_id : ℕ → List Request → ℕ
last_id id [] = id
last_id id (request ∷ more) = last_id ((id + 1) % 2 ^ 32) more

packets-append :
    (target source : AmsAddress) (id : ℕ) (a b : List Request)
    → packets target source id (a ++ b)
      ≡ packets target source id a ++ packets target source (last_id id a) b
packets-append target source id [] b = refl
packets-append target source id ((command, payload) ∷ a) b =
    ap (λ (ps : List (List ℕ)). encode target source command payload ((id + 1) % 2 ^ 32) ∷ ps)
      (packets-append target source ((id + 1) % 2 ^ 32) a b)

last_id-append : (id : ℕ) (a b : List Request) → last_id id (a ++ b) ≡ last_id (last_id id a) b
last_id-append id [] b = refl
last_id-append id (request ∷ a) b = last_id-append ((id + 1) % 2 ^ 32) a b

-- Between the two states these requests went out.
pub record Went (c d : Conn) (requests : List Request) : Type 0 where
  pub sent : d.sent ≡ c.sent ++ packets c.target c.source c.current_request requests
  pub id : d.current_request ≡ last_id c.current_request requests
  pub target : d.target ≡ c.target
  pub source : d.source ≡ c.source

pub Went-none : (c : Conn) → Went c c []
Went-none c = record { sent = sym (append-nil c.sent); id = refl; target = refl; source = refl }

pub Went-posted :
    (command : ℕ) (payload : List ℕ) (c : Conn)
    → Went c (posted command payload c) ((command, payload) ∷ [])
Went-posted command payload c = record { sent = refl; id = refl; target = refl; source = refl }

pub Went-trans : (c d e : Conn) (a b : List Request) → Went c d a → Went d e b → Went c e (a ++ b)
Went-trans c d e a b g h = record {
  sent =
      h.sent
      ∙ rw (g.sent, g.id, g.target, g.source)
          (append_assoc c.sent (packets c.target c.source c.current_request a) _
            ∙ ap (λ (ps : List (List ℕ)). c.sent ++ ps)
                (sym (packets-append c.target c.source c.current_request a b)));
  id = h.id ∙ ap (λ (n : ℕ). last_id n b) g.id ∙ sym (last_id-append c.current_request a b);
  target = h.target ∙ g.target;
  source = h.source ∙ g.source;
}
