-- ===== src/Outline/Conn/Streams.antt =====
-- The stream of bytes of a WSStreamConn, internal/outline_tcp.go, however the peer cuts it into
-- messages.
use outline_cli_ws.Ws.Conn.{Message}
use outline_cli_ws.Outline.Conn.{message_binary, StreamConn, fill, on_fill, read_conn}
use outline_cli_ws.Common.{eof}
use outline_cli_ws.Common.Source.{Source, Whole}
use outline_cli_ws.Common.{
  ℕ, ◌≤◌, ◌<◌, min, ◌≡◌, refl, sym, ap, ◌∙◌, subst, inl, inr, List, [], ◌∷◌, ◌++◌, append_assoc,
  arith, ◌==◌, if◌then◌else◌, Bool-cases, length, take, drop, All, length-append, length-drop,
  take-append-drop,
}
use outline_cli_ws.Common.{Result, ok, err}
use outline_cli_ws.Common.Bytes.{Bytes}

-- The payloads of the binary messages, one behind another.
abbrev pub payloads : List (Result Message) → Bytes
payloads [] = []
payloads (err e ∷ ms) = payloads ms
payloads (ok m ∷ ms) = if m.typ == message_binary then m.payload ++ payloads ms else payloads ms

abbrev pub stream_left : StreamConn → Bytes
stream_left c = c.rb ++ payloads c.messages

-- The loop ends with bytes that are the next ones, or with an error and nothing lost.
abbrev Filled : Bytes → Result Bytes × List (Result Message) → Type 0
Filled all (ok bs, ms) = (all ≡ bs ++ payloads ms) × (0 < length bs)
Filled all (err e, ms) = payloads ms ≡ all

fill-Filled : (rb : Bytes) (ms : List (Result Message)) → Filled (rb ++ payloads ms) (fill rb ms)
unfolding fill
fill-Filled (b ∷ bs) [] = (refl, omega arith)
fill-Filled (b ∷ bs) (m ∷ ms) = (refl, omega arith)
fill-Filled [] [] = refl
fill-Filled [] (err e ∷ ms) = refl
fill-Filled [] (ok m ∷ ms) = elim (Bool-cases (m.typ == message_binary)) [
  | inl t ↦ rw (t, fill) (fill-Filled m.payload ms)
  | inr f ↦ rw (f, fill) (fill-Filled [] ms)
]

length-take : (n : ℕ) (xs : Bytes) → length (take n xs) ≡ min n (length xs)
length-take n xs = omega (
  arith,
  length-append (take n xs) (drop n xs),
  length-drop n xs,
  ap length (take-append-drop n xs),
)

-- What a read of `n` bytes makes of the bytes that are left.
abbrev IsRead : ℕ → Bytes → Result Bytes × StreamConn → Type 0
IsRead n all (ok p, c) = (all ≡ p ++ stream_left c) × (length p ≤ n) × (0 < n → 0 < length p)
IsRead n all (err e, c) = stream_left c ≡ all

on_fill-IsRead :
    (n : ℕ) (all : Bytes) (r : Result Bytes × List (Result Message))
    → Filled all r
    → IsRead n all (on_fill n r)
unfolding on_fill
on_fill-IsRead n all (err e, ms) h = h
on_fill-IsRead n all (ok bs, ms) h = (
  h.0
      ∙ ap (λ x. x ++ payloads ms) (sym (take-append-drop n bs))
      ∙ append_assoc (take n bs) (drop n bs) (payloads ms),
  omega (arith, length-take n bs),
  λ x. omega (arith, length-take n bs, h.1),
)

pub read_conn-IsRead : (n : ℕ) (c : StreamConn) → IsRead n (stream_left c) (read_conn n c)
unfolding read_conn
read_conn-IsRead n c =
    on_fill-IsRead n (stream_left c) (fill c.rb c.messages) (fill-Filled c.rb c.messages)

-- A WSStreamConn is a source of bytes: a read gives the next bytes of the binary messages, at least
-- one where it asks for some, and an error loses none.
unfoldable pub read_conn-Source : Source StreamConn
read_conn-Source = record {
  read = read_conn;
  left = stream_left;
  gives = λ n s s' p e. subst (IsRead n (stream_left s)) e (read_conn-IsRead n s);
  keeps = λ n s s' x e. subst (IsRead n (stream_left s)) e (read_conn-IsRead n s);
}

-- Messages without an error among them.
abbrev pub IsMessage : Result Message → Type 0
IsMessage (ok m) = Unit {0}
IsMessage (err e) = ⊥

abbrev pub Unbroken : StreamConn → Type 0
Unbroken c = All IsMessage c.messages

-- The connection is closed behind the last message.
abbrev Closes : Result Bytes × List (Result Message) → Type 0
Closes (ok bs, ms) = All IsMessage ms
Closes (err e, ms) = (e ≡ eof) × (ms ≡ [])

fill-Closes : (rb : Bytes) (ms : List (Result Message)) → All IsMessage ms → Closes (fill rb ms)
unfolding fill
fill-Closes (b ∷ bs) [] h = h
fill-Closes (b ∷ bs) (m ∷ ms) h = h
fill-Closes [] [] h = (refl, refl)
fill-Closes [] (err e ∷ ms) h = elim h.0 [ ]
fill-Closes [] (ok m ∷ ms) h = elim (Bool-cases (m.typ == message_binary)) [
  | inl t ↦ rw (t, fill) (fill-Closes m.payload ms h.1)
  | inr f ↦ rw (f, fill) (fill-Closes [] ms h.1)
]

abbrev ReadCloses : Result Bytes × StreamConn → Type 0
ReadCloses (ok p, c) = Unbroken c
ReadCloses (err e, c) = (e ≡ eof) × (c.messages ≡ []) × (c.rb ≡ [])

on_fill-ReadCloses :
    (n : ℕ) (r : Result Bytes × List (Result Message)) → Closes r → ReadCloses (on_fill n r)
unfolding on_fill
on_fill-ReadCloses n (ok bs, ms) h = h
on_fill-ReadCloses n (err e, ms) h = (h.0, h.1, refl)

read_conn-ReadCloses : (n : ℕ) (c : StreamConn) → Unbroken c → ReadCloses (read_conn n c)
unfolding read_conn
read_conn-ReadCloses n c h =
    on_fill-ReadCloses n (fill c.rb c.messages) (fill-Closes c.rb c.messages h)

closed-Unbroken : (r : Result Bytes) (c : StreamConn) → ReadCloses (r, c) → Unbroken c
closed-Unbroken (ok p) c h = h
closed-Unbroken (err e) c h = rw h.1 tt

none_left :
    (s s' : StreamConn)
    → stream_left s' ≡ stream_left s
    → s'.messages ≡ []
    → s'.rb ≡ []
    → stream_left s ≡ []
none_left s s' l m r = sym l ∙ ap (λ x. x ++ payloads s'.messages) r ∙ ap payloads m

pub read_conn-Whole : Whole read_conn-Source Unbroken
unfolding read_conn-Source
read_conn-Whole = record {
  stays = λ n s s' r g e. closed-Unbroken r s' (subst ReadCloses e (read_conn-ReadCloses n s g));
  ends = λ n s s' x g e.
      let h : ReadCloses (err x, s') = subst ReadCloses e (read_conn-ReadCloses n s g) in
      (
        (λ q. let y = sym h.0 ∙ q in cc),
        none_left s s' (subst (IsRead n (stream_left s)) e (read_conn-IsRead n s)) h.1 h.2,
      );
}
