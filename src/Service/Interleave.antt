-- ===== src/Service/Interleave.antt =====
-- A server that keeps a text for each of its connections and takes messages out of it: its
-- connections do not mix. Both servers (src/server/chatserver.cpp, src/server/clusterserver.cpp)
-- are of this kind.
use cluster_chat_server_with.Prelude.{
  ◌≡◌, refl, sym, ◌∙◌, ap, subst, inl, inr, false, List, [], ◌∷◌, ◌++◌, none, some, Bytes, eqb,
  eqb_iff, if◌then◌else◌, Bool-cases, Map, find, assign, find-assign, nat_eq,
}
use cluster_chat_server_with.Service.Connections.{Conn}

-- What the network library reports of a connection.
pub data Event : Type 0 where
  opened closed : Conn → Event
  received : Conn → Bytes → Event

-- The text in a connection's context; one without a text gets an empty one.
unfoldable pub pending_of : Map Conn Bytes → Conn → Bytes
pending_of contexts conn = elim (find conn contexts) [ none ↦ [] | some pending ↦ pending ]

pub pending_of-assign :
    (conn k : Conn) (rest : Bytes) (m : Map Conn Bytes)
    → pending_of (assign k rest m) conn ≡ (if eqb k conn then rest else pending_of m conn)
unfolding pending_of
pending_of-assign conn k rest m = elim (Bool-cases (eqb k conn)) [
  | inl e ↦ rw (find-assign k conn rest m, pending_of, e) refl
  | inr e ↦ rw (find-assign k conn rest m, pending_of, e) refl
]

-- Messages with the connection that they came on.
abbrev pub Tagged : Type 0 → Type 0
Tagged M = List (Conn × M)

abbrev pub arrivals : Tagged Bytes → List Event
arrivals [] = []
arrivals ((conn, chunk) ∷ rest) = received conn chunk ∷ arrivals rest

module _ {M : Type 0} where
  -- Those of one connection, in order.
  abbrev pub of_conn : Conn → Tagged M → List M
  of_conn conn [] = []
  of_conn conn ((k, b) ∷ rest) =
      let later = of_conn conn rest in if eqb k conn then b ∷ later else later

  abbrev pub tag : Conn → List M → Tagged M
  tag conn [] = []
  tag conn (b ∷ bs) = (conn, b) ∷ tag conn bs

  of_conn-append :
      (conn : Conn) (xs ys : Tagged M)
      → of_conn conn (xs ++ ys) ≡ of_conn conn xs ++ of_conn conn ys
  of_conn-append conn [] ys = refl
  of_conn-append conn ((k, b) ∷ xs) ys = elim (Bool-cases (eqb k conn)) [
    | inl e ↦ rw (e, of_conn-append conn xs ys) refl
    | inr e ↦ rw (e, of_conn-append conn xs ys) refl
  ]

  of_conn-tag :
      (conn k : Conn) (bs : List M) → of_conn conn (tag k bs) ≡ (if eqb k conn then bs else [])
  of_conn-tag conn k [] = elim (Bool-cases (eqb k conn)) [ inl e ↦ rw e refl | inr e ↦ rw e refl ]
  of_conn-tag conn k (b ∷ bs) = elim (Bool-cases (eqb k conn)) [
    | inl e ↦ rw (e, of_conn-tag conn k bs, e) refl
    | inr e ↦ rw (e, of_conn-tag conn k bs, e) refl
  ]

-- `serve` handles a message.
module _ {M S : Type 0} (serve : Conn → M → S → S) where
  unfoldable pub serve_all : Conn → List M → S → S
  serve_all conn [] s = s
  serve_all conn (m ∷ ms) s = serve_all conn ms (serve conn m s)

  -- The handlers on messages of several connections.
  unfoldable pub serve_tagged : Tagged M → S → S
  serve_tagged [] s = s
  serve_tagged ((conn, m) ∷ rest) s = serve_tagged rest (serve conn m s)

  serve_tagged-append :
      (conn : Conn) (ms : List M) (later : Tagged M) (s : S)
      → serve_tagged (tag conn ms ++ later) s ≡ serve_tagged later (serve_all conn ms s)
  unfolding serve_tagged serve_all
  serve_tagged-append conn [] later s = refl
  serve_tagged-append conn (m ∷ ms) later s = serve_tagged-append conn ms later _

-- `take_all` takes the messages out of a text, with what is left.
module _ {M S : Type 0} (take_all : Bytes → List M × Bytes) (serve : Conn → M → S → S) where
  -- What one chunk gives.
  abbrev pub taken : Map Conn Bytes → Conn → Bytes → List M × Bytes
  taken contexts conn chunk = take_all (pending_of contexts conn ++ chunk)

  -- The server on chunks of any connections.
  unfoldable pub interleaved : Tagged Bytes → Map Conn Bytes × S → Map Conn Bytes × S
  interleaved [] server = server
  interleaved ((conn, chunk) ∷ rest) (contexts, s) = interleaved rest (
    assign conn (taken contexts conn chunk).1 contexts,
    serve_all serve conn (taken contexts conn chunk).0 s,
  )

  -- The same loop on the chunks of one connection alone.
  unfoldable pub alone : Bytes → List Bytes → List M × Bytes
  alone pending [] = ([], pending)
  alone pending (chunk ∷ chunks) =
      let (first, rest) = take_all (pending ++ chunk) in
      let (more, left) = alone rest chunks in (first ++ more, left)

  module _ (conn : Conn) (contexts last : Map Conn Bytes) where
    abbrev Alone : Map Conn Bytes → List Bytes → List M → Type 0
    Alone now chunks messages =
        alone (pending_of now conn) chunks ≡ (messages, pending_of last conn)

    Alone-same :
        (chunk : Bytes) (chunks : List Bytes) (messages : List M)
        → Alone (assign conn (taken contexts conn chunk).1 contexts) chunks messages
        → Alone contexts (chunk ∷ chunks) ((taken contexts conn chunk).0 ++ messages)
    unfolding alone
    Alone-same chunk chunks messages h =
        let rest = (taken contexts conn chunk).1 in
        let kept : pending_of (assign conn rest contexts) conn ≡ rest =
          pending_of-assign conn conn rest contexts ∙ rw ((eqb_iff conn conn).1 refl) refl in
        let own : alone rest chunks ≡ (messages, pending_of last conn) =
          ap (λ q. alone q chunks) (sym kept) ∙ h in
        rw (own) refl

    Alone-other :
        (k : Conn) (rest : Bytes) (chunks : List Bytes) (messages : List M)
        → eqb k conn ≡ false
        → Alone (assign k rest contexts) chunks messages
        → Alone contexts chunks messages
    Alone-other k rest chunks messages e h =
        let kept : pending_of (assign k rest contexts) conn ≡ pending_of contexts conn =
          pending_of-assign conn k rest contexts ∙ rw e refl in
        ap (λ q. alone q chunks) (sym kept) ∙ h

    Alone-step :
        (k : Conn) (chunk : Bytes) (rest : Tagged Bytes) (served : Tagged M)
        → Alone
            (assign k (taken contexts k chunk).1 contexts)
            (of_conn conn rest)
            (of_conn conn served)
        → Alone contexts
            (of_conn conn ((k, chunk) ∷ rest))
            (of_conn conn (tag k (taken contexts k chunk).0 ++ served))
    Alone-step k chunk rest served h =
        let split = of_conn-append conn (tag k (taken contexts k chunk).0) served in
        let tagged = of_conn-tag conn k (taken contexts k chunk).0 in
        let now : Conn → Map Conn Bytes = λ n. assign n (taken contexts n chunk).1 contexts in
        elim (Bool-cases (eqb k conn)) [
          | inl e ↦
              let same = (eqb_iff k conn).0 e in
              rw (e, split, tagged, e)
                (subst
                  (λ n.
                    Alone contexts (chunk ∷ of_conn conn rest)
                      ((taken contexts n chunk).0 ++ of_conn conn served))
                  (sym same)
                  (Alone-same chunk (of_conn conn rest) (of_conn conn served)
                    (subst (λ n. Alone (now n) (of_conn conn rest) (of_conn conn served)) same h)))
          | inr e ↦
              rw (e, split, tagged, e)
                (Alone-other k (taken contexts k chunk).1 (of_conn conn rest) (of_conn conn served)
                  e h)
        ]

  -- One list of messages, handled in order, is all that the chunks did; of each connection it has
  -- what that connection's chunks give alone.
  pub apart :
      (chunks : Tagged Bytes) (contexts : Map Conn Bytes) (s : S)
      → (served : Tagged M) × ((interleaved chunks (contexts, s)).1 ≡ serve_tagged serve served s)
        × ((conn : Conn)
            → alone (pending_of contexts conn) (of_conn conn chunks)
              ≡ (of_conn conn served, pending_of (interleaved chunks (contexts, s)).0 conn))
  unfolding interleaved alone serve_tagged
  apart [] contexts s = ([], refl, λ conn. refl)
  apart ((k, chunk) ∷ rest) contexts s =
      let (messages, left) = taken contexts k chunk in
      let (served, state, own) =
        apart rest (assign k left contexts) (serve_all serve k messages s) in
      (
        tag k messages ++ served,
        state ∙ sym (serve_tagged-append serve k messages served s),
        λ conn. Alone-step conn contexts _ k chunk rest served (own conn),
      )
