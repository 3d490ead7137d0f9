-- ===== src/Proxy/Client/Body.antt =====
-- How much of a client's header and body the proxy takes.
use Prim.Native.Nat.{min}
use native.Mathlib.Decide.{dec_lt}
use webshot.Base.{
  ℕ, zero, suc, ◌≢◌, ◌-◌, ◌≤◌, ◌≡◌, refl, sym, ap, ◌∙◌, Bool, true, false, if◌then◌else◌, List, [],
  ◌∷◌, ◌++◌, Option, none, some, take, length, null, take-all, arith,
}
use webshot.Base.Bytes.{Bytes}
use webshot.Proxy.Client.{
  Round, Events, receive, round_piece, forward_rounds, forward_http_request_body,
}

abbrev pub concat : List Bytes → Bytes
concat [] = []
concat (b ∷ bs) = b ++ concat bs

-- In each round bytes are at hand, at most a buffer of them, of which the round receives no more than
-- it asks for; the server takes what it receives; and there are rounds until the length is reached.
abbrev pub IsSmooth : ℕ → List Round → Type 0
IsSmooth n [] = n ≡ 0
IsSmooth n (r ∷ rounds) =
    (n ≢ 0)
    × (r.stopped ≡ false)
    × (r.taken ≡ true)
    × ((piece : Bytes) × (r.received ≡ some piece)
        × (null piece ≡ false)
        × (length piece ≤ 16384)
        × IsSmooth (n - length (take n piece)) rounds)

abbrev pub bytes_of : Option Bytes → Bytes
bytes_of none = []
bytes_of (some piece) = piece

abbrev pub received_bytes : List Round → Bytes
received_bytes [] = []
received_bytes (r ∷ rounds) = bytes_of r.received ++ received_bytes rounds

take-min : (n : ℕ) (b : Bytes) → take (min n (length b)) b ≡ take n b
take-min n b = elim (dec_lt n (length b)) [
  | yes h ↦ ap (λ (k : ℕ). take k b) (omega arith)
  | no h ↦ take-all (min n (length b)) b (omega arith) ∙ sym (take-all n b (omega arith))
]

take-buffer : (n : ℕ) (b : Bytes) → length b ≤ 16384 → take (min n 16384) b ≡ take n b
take-buffer n b l = elim (dec_lt n 16384) [
  | yes h ↦ ap (λ (k : ℕ). take k b) (omega arith)
  | no h ↦ take-all (min n 16384) b (omega arith) ∙ sym (take-all n b (omega arith))
]

smooth_piece :
    (n : ℕ) (r : Round) (piece : Bytes)
    → n ≢ 0
    → r.stopped ≡ false
    → r.received ≡ some piece
    → length piece ≤ 16384
    → round_piece n r ≡ take n piece
unfolding round_piece receive
smooth_piece n r piece z s p l = ground (arith, take-buffer n piece l)

take_rest : (n : ℕ) (b r : Bytes) → take n b ++ take (n - length (take n b)) r ≡ take n (b ++ r)
take_rest zero [] r = refl
take_rest zero (c ∷ b) r = refl
take_rest (suc n) [] r =
    let all_left : suc n - 0 ≡ suc n = omega arith in ap (λ (k : ℕ). take k r) all_left
take_rest (suc n) (c ∷ b) r =
    let less : suc n - suc (length (take n b)) ≡ n - length (take n b) = omega arith in
    ap (λ (k : ℕ). c ∷ (take n b ++ take k r)) less ∙ ap (◌∷◌ c) (take_rest n b r)

null-take : (n : ℕ) (piece : Bytes) → n ≢ 0 → null piece ≡ false → null (take n piece) ≡ false
null-take zero piece z h = absurd (z refl)
null-take (suc n) [] z h = h
null-take (suc n) (c ∷ piece) z h = refl

forward_rounds_smooth :
    (n : ℕ) (rounds : List Round)
    → IsSmooth n rounds
    → concat (forward_rounds n rounds) ≡ take n (received_bytes rounds)
unfolding forward_rounds
forward_rounds_smooth n [] h = ground (arith, h)
forward_rounds_smooth n (r ∷ rounds) (z, s, t, (piece, p, f, l, h)) =
    rw (smooth_piece n r piece z s p l, null-take n piece z f, t, p)
      (ap (λ (b : Bytes). take n piece ++ b)
          (forward_rounds_smooth (n - length (take n piece)) rounds h)
        ∙ take_rest n piece (received_bytes rounds))

sent_first :
    (a : Bytes) (t : Bool) (more : List Bytes)
    → t ≡ true
    → concat (if null a then more else a ∷ (if t then more else [])) ≡ a ++ concat more
sent_first [] t more h = refl
sent_first (c ∷ a) t more h = rw h refl

-- Where no part of the exchange fails, the server is sent the bytes behind the header as they came,
-- up to the length that the request gives and no further, also where more are at hand.
pub forward_http_request_body-take :
    (buffered : Bytes) (n : ℕ) (ev : Events)
    → ev.takes_buffered ≡ true
    → IsSmooth (n - length (take n buffered)) ev.rounds
    → concat (forward_http_request_body buffered n ev)
      ≡ take n (buffered ++ received_bytes ev.rounds)
unfolding forward_http_request_body
forward_http_request_body-take buffered n ev t h = rw (take-min n buffered) (
    sent_first (take n buffered) ev.takes_buffered
      (forward_rounds (n - length (take n buffered)) ev.rounds) t
    ∙ ap (λ (b : Bytes). take n buffered ++ b)
        (forward_rounds_smooth (n - length (take n buffered)) ev.rounds h)
    ∙ take_rest n buffered (received_bytes ev.rounds))
