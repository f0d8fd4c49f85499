-- ===== src/Engine/Relay/Chunks.antt =====
-- What the relay makes of the two streams.
use gravital_share.Common.{
  ℕ, zero, suc, ◌+◌, ◌<◌, ◌≡◌, refl, ap, sym, ◌∙◌, arith, List, [], ◌∷◌, ◌++◌, Option, none, some,
  Bool, true, length, length-append, All,
}
use mathlib.Core.List.{append_assoc, append-nil}
use gravital_share.Common.Io.{IoError}
use gravital_share.Common.Sock.{Sock, read, concat, IsNonempty, sock, read-Delivers_at}
use gravital_share.Engine.Relay.{app_to_up, chunk_size, passed, sent_on, up_to_app}

-- Everything that the application sends goes up, in order, to a proxy that takes bytes.
app_to_up-concat :
    (msgs segs : List (List ℕ)) (e : Option IoError) (o : List ℕ)
    → app_to_up msgs (sock segs e o none) ≡ sock segs e (o ++ concat msgs) none
unfolding app_to_up
app_to_up-concat [] segs e o = ap (λ t. sock segs e t none) (sym (append-nil o))
app_to_up-concat (m ∷ msgs) segs e o =
    app_to_up-concat msgs segs e (o ++ m)
    ∙ ap (λ t. sock segs e t none) (append_assoc o m (concat msgs))

module _ (takes : ℕ → Bool) (takes_all : (n : ℕ) → takes n ≡ true) (o : List ℕ)
    (b : Option IoError) where
  -- The loop ends with all that was to come as messages, none of them empty.
  abbrev Passes : List ℕ → Option (Sock × List (List ℕ)) → Type 0
  Passes bytes r =
      (s : Sock) × (chunks : List (List ℕ)) × (r ≡ some (s, chunks))
      × (concat chunks ≡ bytes)
      × All IsNonempty chunks

  up_to_app-Passes :
      (fuel n : ℕ) (segs : List (List ℕ)) (e : Option IoError)
      → All IsNonempty segs
      → length (concat segs) < fuel
      → Passes (concat segs) (up_to_app takes fuel n (sock segs e o b))
  unfolding up_to_app sent_on read
  up_to_app-Passes zero n segs e h enough = absurd (omega arith)
  up_to_app-Passes (suc fuel) n [] none h enough = (_, [], refl, refl, tt)
  up_to_app-Passes (suc fuel) n [] (some x) h enough = (_, [], refl, refl, tt)
  up_to_app-Passes (suc fuel) n ([] ∷ segs) e h enough = absurd (h.0 refl)
  up_to_app-Passes (suc fuel) n ((x ∷ xs) ∷ segs) e h enough =
      let (first, others, left, reads, same, whole) =
        read-Delivers_at segs e o b chunk_size x xs h.1 (omega arith) in
      let (s, chunks, q, all, nonempty) =
        up_to_app-Passes fuel (n + 1) left e whole
          (omega (arith, ap (length {A = ℕ}) same, length-append (first ∷ others) (concat left))) in
      (
        s,
        (first ∷ others) ∷ chunks,
        ap (sent_on (up_to_app takes fuel (n + 1)) (takes n)) reads
            ∙ rw (takes_all n) (ap (passed (first ∷ others)) q),
        ap (λ t. (first ∷ others) ++ t) all ∙ same,
        (cc, nonempty),
      )

-- What the proxy sends reaches the application, cut into messages but otherwise unchanged: the
-- messages put together are what was to come, and none is empty, as long as the channel takes
-- them. A round for each byte and one more are enough.
pub up_to_app-concat :
    (takes : ℕ → Bool) (segs : List (List ℕ)) (e : Option IoError) (o : List ℕ) (b : Option IoError)
    → ((n : ℕ) → takes n ≡ true)
    → All IsNonempty segs
    → (s : Sock) × (chunks : List (List ℕ)) × (up_to_app takes
          (suc (length (concat segs)))
          0
          (sock segs e o b)
        ≡ some (s, chunks))
      × (concat chunks ≡ concat segs)
      × All IsNonempty chunks
up_to_app-concat takes segs e o b takes_all whole =
    up_to_app-Passes takes takes_all o b (suc (length (concat segs))) 0 segs e whole (omega arith)
