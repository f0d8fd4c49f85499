-- ===== src/Http/Server/Head.antt =====
-- The loop that reads the head of the request.
use gravital_share.Common.{
  ℕ, zero, suc, ◌+◌, ◌-◌, ◌≤◌, ◌<◌, ◌≡◌, ◌≢◌, ◌⊎◌, inl, inr, refl, ap, ◌∙◌, arith, List, [], ◌∷◌,
  ◌++◌, Option, some, leb, false, length, length-append, All, Bool-cases,
}
use mathlib.Core.List.{append_assoc}
use gravital_share.Common.Io.{IoError}
use gravital_share.Common.Sock.{Sock, read, concat, IsNonempty, sock, read_room, read-Delivers_at}
use gravital_share.Common.Outcome.{Result, ok, err}
use gravital_share.Http.Errors.{HttpProxyError}
use gravital_share.Http.Server.{
  Status, complete, partial, Request, Parser, max_header_size, HeadResult, examined, received,
  read_head,
}

-- The loop ends, and a buffer that it returns is within the array.
abbrev pub Ends : HeadResult → Type 0
Ends r =
    (s : Sock) × (x : Result HttpProxyError (ℕ × List ℕ)) × (r ≡ some (s, x))
    × ((n : ℕ) (buf : List ℕ) → x ≡ ok (n, buf) → length buf ≤ max_header_size)

module _ (p : Parser) (next : List ℕ → Sock → HeadResult) (buf : List ℕ)
    (go : (buf' : List ℕ) (s : Sock)
      → length buf < length buf'
      → length buf' < max_header_size
      → Ends (next buf' s)) where
  examined-Ends :
      (s : Sock) (buf' : List ℕ) (r : Result (List ℕ) (Status × Request))
      → length buf < length buf'
      → length buf' ≤ max_header_size
      → Ends (examined next buf' s r)
  unfolding examined
  examined-Ends s buf' (err e) more fits = (s, _, refl, λ n bs h. cc)
  examined-Ends s buf' (ok (complete len, _)) more fits =
      (s, _, refl, λ n bs h. let q : buf' ≡ bs = cc in rw (← q) fits)
  examined-Ends s buf' (ok (partial, _)) more fits =
      elim (Bool-cases (leb max_header_size (length buf'))) [
        | inl h ↦ rw h (s, _, refl, λ n bs q. cc)
        | inr h ↦ rw h (go buf' s more (ground arith))
      ]

  received-Ends :
      (r : Sock × Result IoError (List ℕ))
      → ((bs : List ℕ) → r.1 ≡ ok bs → length buf + length bs ≤ max_header_size)
      → Ends (received p next buf r)
  unfolding received
  received-Ends (s, err e) h = (s, _, refl, λ n bs q. cc)
  received-Ends (s, ok []) h = (s, _, refl, λ n bs q. cc)
  received-Ends (s, ok (b ∷ bs)) h =
      examined-Ends s (buf ++ (b ∷ bs)) (p (buf ++ (b ∷ bs)))
        (omega (arith, length-append buf (b ∷ bs)))
        (omega (arith, length-append buf (b ∷ bs), h (b ∷ bs) refl))

pub read_head-Ends :
    (p : Parser) (fuel : ℕ) (buf : List ℕ) (s : Sock)
    → length buf < max_header_size
    → max_header_size ≤ fuel + length buf
    → Ends (read_head p fuel buf s)
unfolding read_head
read_head-Ends p zero buf s lt enough = absurd (omega arith)
read_head-Ends p (suc fuel) buf s lt enough =
    received-Ends p (read_head p fuel) buf
      (λ buf' s' more less. read_head-Ends p fuel buf' s' less (omega arith))
      (read (max_header_size - length buf) s)
      (λ bs h. let room = read_room (max_header_size - length buf) s _ bs refl h in omega arith)

-- Two ways to split one text: the first piece is a proper prefix of the other's, or contains it.
split_cases :
    (xs ys head body : List ℕ)
    → xs ++ ys ≡ head ++ body
    → ((q : List ℕ) × (xs ++ q ≡ head) × (q ≢ []))
      ⊎ ((m : List ℕ) × (xs ≡ head ++ m) × (m ++ ys ≡ body))
split_cases xs ys [] body h = inr (xs, refl, h)
split_cases [] ys (c ∷ head) body h = inl (c ∷ head, refl, cc)
split_cases (x ∷ xs) ys (c ∷ head) body h =
    let e : x ≡ c = cc in
    let rest : xs ++ ys ≡ head ++ body = cc in
    elim (split_cases xs ys head body rest) [
      | inl (q, eq, ne) ↦ inl (q, cc, ne)
      | inr (m, eq, eqm) ↦ inr (m, cc, eqm)
    ]

-- What httparse does with a request whose head is `head`, as its documentation says: a proper
-- prefix is partial, and whatever follows the head, it is complete, with its length.
pub record Recognises (p : Parser) (head : List ℕ) (req : Request) : Type 0 where
  pub of_prefix : (a b : List ℕ) → a ++ b ≡ head → b ≢ [] → (r : Request) × (p a ≡ ok (partial, r))
  pub of_head : (more : List ℕ) → p (head ++ more) ≡ ok (complete (length head), req)

proper-length : (xs head q : List ℕ) → xs ++ q ≡ head → q ≢ [] → length xs < length head
proper-length xs head [] eq ne = absurd (ne refl)
proper-length xs head (y ∷ q) eq ne = rw (← eq) (omega (arith, length-append xs (y ∷ q)))

le→leb_false : (a b : ℕ) → b < a → leb a b ≡ false
le→leb_false a b h = ground arith

module _ (p : Parser) (head : List ℕ) (req : Request) (rec : Recognises p head req)
    (fits : length head ≤ max_header_size) (e : Option IoError) (o : List ℕ) (b : Option IoError)
    (body : List ℕ) where
  -- The loop stops with the head and a piece of what follows it.
  abbrev pub Finds : HeadResult → Type 0
  Finds r =
      (m : List ℕ) × (left : List (List ℕ)) × (r
        ≡ some (sock left e o b, ok (length head, head ++ m)))
      × (m ++ concat left ≡ body)

  examined-Finds :
      (next : List ℕ → Sock → HeadResult) (buf : List ℕ) (left : List (List ℕ))
      → buf ++ concat left ≡ head ++ body
      → (length buf < length head → Finds (next buf (sock left e o b)))
      → Finds (examined next buf (sock left e o b) (p buf))
  unfolding examined
  examined-Finds next buf left eq go = elim (split_cases buf (concat left) head body eq) [
    | inl (q, whole, ne) ↦
        let (r, partly) = rec.of_prefix buf q whole ne in
        let less = proper-length buf head q whole ne in
        rw (partly, examined)
          (rw (le→leb_false max_header_size (length buf) (omega arith)) (go less))
    | inr (m, found, rest) ↦ (
      m,
      left,
      rw (ap p found ∙ rec.of_head m, examined)
          (ap (λ x. some (sock left e o b, ok (length head, x))) found),
      rest,
    )
  ]

  pub read_head-Finds :
      (fuel : ℕ) (buf : List ℕ) (segs : List (List ℕ))
      → buf ++ concat segs ≡ head ++ body
      → length buf < length head
      → All IsNonempty segs
      → max_header_size ≤ fuel + length buf
      → Finds (read_head p fuel buf (sock segs e o b))
  unfolding read_head received
  read_head-Finds zero buf segs eq lt whole enough = absurd (omega arith)
  read_head-Finds (suc fuel) buf [] eq lt whole enough =
      absurd (omega (arith, ap (length {A = ℕ}) eq, length-append buf [], length-append head body))
  read_head-Finds (suc fuel) buf ([] ∷ segs) eq lt whole enough = absurd (whole.0 refl)
  read_head-Finds (suc fuel) buf ((x ∷ xs) ∷ segs) eq lt whole enough =
      let (first, others, left, reads, same, whole') =
        read-Delivers_at segs e o b (max_header_size - length buf) x xs whole.1 (omega arith) in
      let eq' : (buf ++ (first ∷ others)) ++ concat left ≡ head ++ body =
        append_assoc buf (first ∷ others) (concat left) ∙ ap (λ t. buf ++ t) same ∙ eq in
      rw (ap (received p (read_head p fuel) buf) reads) (
        examined-Finds (read_head p fuel) (buf ++ (first ∷ others)) left eq' (λ less.
          read_head-Finds fuel (buf ++ (first ∷ others)) left eq' less whole'
            (omega (arith, length-append buf (first ∷ others)))))
