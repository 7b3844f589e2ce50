-- ===== src/TcpClient/Tame.antt =====
-- What the pieces of src/clients/tcp_client.c leave of the input and of the results of `recv`.
use shelter_server_hpc.Prelude.{
  leb, ◌+◌, List, ℕ, ◌≤◌, ◌≡◌, ◌≢◌, refl, arith, ℤ, Bool, Option, none, some, Bytes, [], ◌∷◌, ◌++◌,
  if◌then◌else◌, length, Bool-cases, Option-cases, inl, inr,
}
use shelter_server_hpc.CJson.{CJson}
use shelter_server_hpc.Stdio.{fgets}
use shelter_server_hpc.Stdio.Reading.{fgets-shrinks, scanf_int-shrinks, getchar-shrinks}
use shelter_server_hpc.TcpClient.Session.{
  Event, says, Recv, recv_error, recv_closed, recv_bytes, Client, Result, returns, again, leaves,
  crashes, blocks, out_of_fuel, exits, Run, and_then, ends, emit, read_input, scan_int, skip_char,
  next_recv, send_json,
}
use shelter_server_hpc.TcpClient.Zip.{receive_zip_loop, receive_zip}
use shelter_server_hpc.TcpClient.Receive.{
  c_string, select_image, read_choice, handle_image_list, handle_file_size, handle_alert,
  handle_message, handle_text, Message, message_of, image_list, zip_ready, handle_recv,
  receive_json,
}

-- An outcome with at most `n` bytes of input and `k` results of `recv` left, which is not for want of
-- fuel.
abbrev pub Keeps : {A : Type 0} → ℕ → ℕ → Result A × Client → Type 0
Keeps n k o = (length o.1.stdin ≤ n) × (length o.1.incoming ≤ k) × (o.0 ≢ out_of_fuel)

-- A piece of code that adds nothing to either.
abbrev pub Tame : {A : Type 0} → Run A → Type 0
Tame m = (n k : ℕ) (c : Client) → length c.stdin ≤ n → length c.incoming ≤ k → Keeps n k (m c)

pub Keeps-and_then :
    {A B : Type 0} (n k : ℕ) (f : A → Run B) (o : Result A × Client)
    → Keeps n k o
    → ((a : A) → Tame (f a))
    → Keeps n k (and_then f o)
Keeps-and_then n k f (returns a, c) h t = t a n k c h.0 h.1
Keeps-and_then n k f (again, c) h t = (h.0, h.1, λ e. cc)
Keeps-and_then n k f (leaves, c) h t = (h.0, h.1, λ e. cc)
Keeps-and_then n k f (crashes, c) h t = (h.0, h.1, λ e. cc)
Keeps-and_then n k f (blocks, c) h t = (h.0, h.1, λ e. cc)
Keeps-and_then n k f (out_of_fuel, c) h t = absurd (h.2 refl)
Keeps-and_then n k f (exits s, c) h t = (h.0, h.1, λ e. cc)

-- A sequence of two such pieces is one.
pub then-Tame :
    {A B : Type 0} (m : Run A) (f : A → Run B)
    → Tame m
    → ((a : A) → Tame (f a))
    → Tame (λ c. and_then f (m c))
then-Tame m f t u n k c h i = Keeps-and_then n k f (m c) (t n k c h i) u

pub emit-Tame : (e : Event) → Tame (emit e)
emit-Tame e n k c h i = (h, i, λ q. cc)

pub ends-Tame : {A : Type 0} (r : Result A) → r ≢ out_of_fuel → Tame (ends r)
ends-Tame r ne n k c h i = (h, i, ne)

pub if_Tame :
    {A : Type 0} (b : Client → Bool) (m p : Run A)
    → Tame m
    → Tame p
    → Tame (λ c. if b c then m c else p c)
if_Tame b m p t u n k c h i = elim (Bool-cases (b c)) [
  | inl y ↦ rw y (t n k c h i)
  | inr y ↦ rw y (u n k c h i)
]

pub read_input-some :
    (c : Client) (line rest : Bytes)
    → fgets 1024 c.stdin ≡ some (line, rest)
    → read_input c ≡ (returns line, record c { stdin = rest })
unfolding read_input
read_input-some c line rest e = rw (e, read_input)

pub read_input-none :
    (c : Client)
    → fgets 1024 c.stdin ≡ none
    → read_input c ≡ (leaves, record c { events = c.events ++ (says "Error reading input" ∷ []) })
unfolding read_input
read_input-none c e = rw (e, read_input)

pub read_input-Tame : Tame read_input
unfolding read_input
read_input-Tame n k c h i = elim (Option-cases (fgets 1024 c.stdin)) [
  | inl e ↦ rw (e, read_input) (h, i, λ q. cc)
  | inr ((line, rest), e) ↦
      let less = fgets-shrinks 1022 c.stdin line rest e in
      rw (e, read_input) (omega arith, i, λ q. cc)
]

pub scan_int-Tame : Tame scan_int
unfolding scan_int
scan_int-Tame n k c h i = (omega (arith, scanf_int-shrinks c.stdin), i, λ q. cc)

pub skip_char-Tame : Tame skip_char
skip_char-Tame n k c h i = (omega (arith, getchar-shrinks c.stdin), i, λ q. cc)

pub next_recv-Tame : Tame next_recv
unfolding next_recv
next_recv-Tame n k c h i = ground arith

module _ (C : CJson) where
  pub send_json-Tame : (json : C.Json) → Tame (send_json C json)
  unfolding send_json
  send_json-Tame json n k c h i = ground arith

  select_image-Tame : (images : C.Json) (choice : ℤ) → Tame (select_image C images choice)
  unfolding select_image send_json
  select_image-Tame images choice n k c h i = ground arith

  read_choice-Tame : (images : C.Json) (choice : Option ℤ) → Tame (read_choice C images choice)
  unfolding read_choice
  read_choice-Tame images none = λ n k c h i. (h, i, λ q. cc)
  read_choice-Tame images (some choice) =
      then-Tame skip_char (λ _. select_image C images choice) skip_char-Tame
        (λ _. select_image-Tame images choice)

  handle_image_list-Tame : (json : C.Json) → Tame (handle_image_list C json)
  unfolding handle_image_list
  handle_image_list-Tame json n k c h i =
      elim (Option-cases (C.get_object_item (some json) "images")) [
        | inl e ↦ rw (e, handle_image_list) (h, i, λ q. cc)
        | inr (images, e) ↦ elim (Bool-cases (C.is_array images)) [
          | inl y ↦
              rw (e, handle_image_list, y)
                (then-Tame scan_int (read_choice C images) scan_int-Tame (read_choice-Tame images) n
                  k c h i)
          | inr y ↦ rw (e, handle_image_list, y) (h, i, λ q. cc)
        ]
      ]

  receive_zip_loop-shrinks :
      (size : ℤ) (total : ℕ) (written : Bytes) (rs : List Recv)
      → length (receive_zip_loop size total written rs).2 ≤ length rs
  unfolding receive_zip_loop
  receive_zip_loop-shrinks size total written [] = omega arith
  receive_zip_loop-shrinks size total written (recv_error ∷ rs) = omega arith
  receive_zip_loop-shrinks size total written (recv_closed ∷ rs) = omega arith
  receive_zip_loop-shrinks size total written (recv_bytes bs ∷ rs) =
      ground (arith, receive_zip_loop-shrinks size (total + length bs) (written ++ bs) rs)

  receive_zip-Tame : Tame receive_zip
  unfolding receive_zip
  receive_zip-Tame n k c h i =
      ground (arith, receive_zip_loop-shrinks c.zip_size_bytes 0 [] c.incoming)

  handle_message-Tame : (json : C.Json) (m : Message) → Tame (handle_message C json m)
  unfolding handle_message handle_file_size handle_alert
  handle_message-Tame json image_list n k c h i =
      ground (arith, handle_image_list-Tame json n k c h i)
  handle_message-Tame json zip_ready n k c h i =
      receive_zip-Tame n k
        (record c { events = c.events ++ (says "Server ready to send ZIP" ∷ []) }) h i
  handle_message-Tame json _ n k c h i = ground arith

  handle_text-Tame : (text : Bytes) → Tame (handle_text C text)
  unfolding handle_text
  handle_text-Tame text n k c h i = elim (Option-cases (C.parse (some text))) [
    | inl e ↦ rw (e, handle_text) (h, i, λ q. cc)
    | inr (json, e) ↦ elim (Option-cases (C.get_object_item (some json) "message")) [
      | inl e₁ ↦ rw (e, handle_text, e₁) (h, i, λ q. cc)
      | inr (message, e₁) ↦ elim (Option-cases (C.valuestring message)) [
        | inl e₂ ↦ rw (e, handle_text, e₁, e₂) (h, i, λ q. cc)
        | inr (value, e₂) ↦
            rw (e, handle_text, e₁, e₂) (handle_message-Tame json (message_of value) n k c h i)
      ]
    ]
  ]

  pub handle_recv-Tame : (r : Recv) → Tame (handle_recv C r)
  unfolding handle_recv
  handle_recv-Tame recv_error = λ n k c h i. (h, i, λ q. cc)
  handle_recv-Tame recv_closed = λ n k c h i. (h, i, λ q. cc)
  handle_recv-Tame (recv_bytes bs) = λ n k c h i.
      elim (Bool-cases (leb 1024 (length (c_string bs)))) [
        | inl full ↦ rw full (h, i, λ q. cc)
        | inr fits ↦ rw fits (handle_text-Tame (c_string bs) n k c h i)
      ]

  pub receive_json-Tame : Tame (receive_json C)
  unfolding receive_json
  receive_json-Tame = then-Tame next_recv (handle_recv C) next_recv-Tame handle_recv-Tame
