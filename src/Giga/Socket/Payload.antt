-- ===== src/Giga/Socket/Payload.antt =====
-- `ws_loop` and `ws_send_text` (ws_client.cpp): what is read of a message, and when one is sent.
use house_panel.Base.{
  ℕ, zero, suc, ◌+◌, ◌≤◌, ◌<◌, ◌++◌, ◌⊎◌, length, ltb→lt, ltb→ge, ◌≡◌, ◌≢◌, ◌↔◌, refl, ap, Bool,
  true, false, not, ◌||◌, List, [], ◌∷◌, arith, ltb, ◌==◌, if◌then◌else◌, Bytes, take, Bool-cases,
  inl, inr, min, ◌-◌,
}
use house_panel.Base.Words.{elapsed}
use house_panel.Giga.Socket.{
  Poll, got, waits, read_payload, Message, payload_of, ws_buf_size, RawWrite, write_failed, Sending,
  SendResult, ws_send_text,
}

-- The bytes that come before the first poll that finds none more than two seconds after `t`.
abbrev pub delivered : List Poll → ℕ → Bytes
delivered [] t = []
delivered (got b ∷ ps) t = b ∷ delivered ps t
delivered (waits now ∷ ps) t = if ltb 2000 (elapsed now t) then [] else delivered ps t

read_payload-delivered :
    (ps : List Poll) (t left : ℕ) → read_payload ps t left ≡ take left (delivered ps t)
unfolding read_payload
read_payload-delivered [] t zero = refl
read_payload-delivered [] t (suc left) = refl
read_payload-delivered (p ∷ ps) t zero = refl
read_payload-delivered (got b ∷ ps) t (suc left) = ap (◌∷◌ b) (read_payload-delivered ps t left)
read_payload-delivered (waits now ∷ ps) t (suc left) =
    elim (Bool-cases (ltb 2000 (elapsed now t))) [
      | inl late ↦ rw late refl
      | inr early ↦ rw early (read_payload-delivered ps t (suc left))
    ]

-- What is read of a message is the part that arrives in time, cut to the size that the message announces
-- and to the 255 bytes that the buffer holds before its terminator.
pub payload_of-delivered :
    (m : Message)
    → (payload_of m ≡ take (min m.size (ws_buf_size - 1)) (delivered m.polls m.started))
payload_of-delivered m = read_payload-delivered m.polls m.started (min m.size (ws_buf_size - 1))

abbrev pub AllWhole : List RawWrite → Type 0
AllWhole [] = Unit {0}
AllWhole (w ∷ ws) = (w.taken ≡ w.given) × AllWhole ws

write_failed-AllWhole :
    (ws : List RawWrite) (error : Bool)
    → (write_failed error ws ≡ false) ↔ ((error ≡ false) × AllWhole ws)
write_failed-AllWhole [] error = (λ e. (e, tt), λ e. e.0)
write_failed-AllWhole (w ∷ ws) error =
    ground (arith, write_failed-AllWhole ws (error || not (w.taken == w.given)))

-- A text is sent whole exactly if it is not empty, fits the library's buffer and the client is connected,
-- the library's calls succeed and take all of it, and every write that reached the socket was whole; and
-- if it fits and the client is connected, any failure closes the socket.
pub ws_send_text_iff :
    (capacity n : ℕ) (g : Sending)
    → ((ws_send_text capacity g n ≡ SendResult.whole) ↔ (
        (n ≢ 0)
        × (n ≤ capacity)
        × (g.connected ≡ true)
        × (g.begins ≡ true)
        × (g.written ≡ n)
        × (g.ends ≡ true)
        × AllWhole g.writes))
      × (n ≢ 0
          → n ≤ capacity
          → g.connected ≡ true
          → ws_send_text capacity g n ≢ SendResult.whole
          → ws_send_text capacity g n ≡ SendResult.stopped)
unfolding ws_send_text
ws_send_text_iff capacity n g = ground (arith, write_failed-AllWhole g.writes false)

-- The polls have the bytes that are asked for, or one that comes too late.
abbrev IsEnough : List Poll → ℕ → ℕ → Type 0
IsEnough ps t zero = Unit {0}
IsEnough [] t (suc left) = ⊥
IsEnough (got b ∷ ps) t (suc left) = IsEnough ps t left
IsEnough (waits now ∷ ps) t (suc left) = (2000 < elapsed now t) ⊎ IsEnough ps t (suc left)

-- `delay(1)` stands between two polls that find nothing: after `k` of them, `k` milliseconds have passed.
abbrev pub IsTicking : List Poll → ℕ → ℕ → Type 0
IsTicking [] t k = Unit {0}
IsTicking (got b ∷ ps) t k = IsTicking ps t k
IsTicking (waits now ∷ ps) t k = (k ≤ elapsed now t) × IsTicking ps t (suc k)

IsTicking-IsEnough :
    (ps : List Poll) (t left k : ℕ)
    → k ≤ 2001
    → IsTicking ps t k
    → left + 2002 ≤ length ps + k
    → IsEnough ps t left
IsTicking-IsEnough ps t zero k early h n = tt
IsTicking-IsEnough [] t (suc left) k early h n = absurd (omega (arith, early, n))
IsTicking-IsEnough (got b ∷ ps) t (suc left) k early h n =
    IsTicking-IsEnough ps t left k early h (omega (arith, n))
IsTicking-IsEnough (waits now ∷ ps) t (suc left) k early h n =
    elim (Bool-cases (ltb 2000 (elapsed now t))) [
      | inl late ↦ inl (ltb→lt 2000 (elapsed now t) late)
      | inr in_time ↦
          let most = ltb→ge 2000 (elapsed now t) in_time in
          inr (
            IsTicking-IsEnough ps t (suc left) (suc k) (omega (arith, most, h.0)) h.1
              (omega (arith, n)))
    ]

enough-read_payload :
    (ps more : List Poll) (t left : ℕ)
    → IsEnough ps t left
    → read_payload (ps ++ more) t left ≡ read_payload ps t left
unfolding read_payload
enough-read_payload [] [] t zero h = refl
enough-read_payload [] (p ∷ more) t zero h = refl
enough-read_payload [] more t (suc left) h = absurd h
enough-read_payload (p ∷ ps) more t zero h = refl
enough-read_payload (got b ∷ ps) more t (suc left) h =
    ap (◌∷◌ b) (enough-read_payload ps more t left h)
enough-read_payload (waits now ∷ ps) more t (suc left) h =
    elim (Bool-cases (ltb 2000 (elapsed now t))) [
      | inl late ↦ rw late refl
      | inr in_time ↦
          let most = ltb→ge 2000 (elapsed now t) in_time in
          elim h [
            | inl late ↦ absurd (omega (arith, late, most))
            | inr rest ↦ rw in_time (enough-read_payload ps more t (suc left) rest)
          ]
    ]

-- The reading loop of ws_loop ends, whatever the server sends: it makes at most 2002 polls more than the
-- bytes that it asks for, and what could be polled after them changes nothing. The clock is assumed to
-- advance by a millisecond with each `delay(1)`.
pub read_payload_ends :
    (ps more : List Poll) (t left : ℕ)
    → IsTicking ps t 0
    → left + 2002 ≤ length ps
    → read_payload (ps ++ more) t left ≡ read_payload ps t left
read_payload_ends ps more t left h n =
    enough-read_payload ps more t left
      (IsTicking-IsEnough ps t left 0 (omega arith) h (omega (arith, n)))
