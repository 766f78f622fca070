-- ===== src/Client/Frees.antt =====
-- However often a client has been closed, each thing it holds is given back once.
use client_shared_lib.Base.{
  ℕ, zero, suc, ◌≡◌, refl, ◌∙◌, ap, inl, inr, Bool, true, false, List, [], ◌∷◌, ◌++◌, append_assoc,
  append-nil, if◌then◌else◌, Bool-cases,
}
use client_shared_lib.Base.Int.{negsuc}
use client_shared_lib.Mem.{Cmd, ok, pure, ◌>>◌}
use client_shared_lib.Client.{
  Client, Clients, client, freed, Release, closes, frees_bufferevent, frees_base, frees_buffer,
  is_open, is_some, release, close_client, buffered_on_error, job_function, close_and_free,
}

abbrev pub when : Bool → Release → List Release
when b r = if b then r ∷ [] else []

-- what a client holds, in the order in which it is given back
abbrev pub held : Client → List Release
held c =
    when (is_open c.fd) (closes c.fd)
    ++ (when (is_some c.buf_ev) (frees_bufferevent c.buf_ev)
        ++ (when (is_some c.evbase) (frees_base c.evbase)
            ++ when (is_some c.output_buffer) (frees_buffer c.output_buffer)))

-- the client after `closeClient`
abbrev pub closed : Client → Client
closed c = record c { fd = (if is_open c.fd then negsuc 0 else c.fd) }

-- `n` errors in a row
unfoldable pub closings : ℕ → Cmd Clients (Unit {0})
unfolding buffered_on_error
closings zero = pure tt
closings (suc n) = buffered_on_error >> closings n

append_assoc4 :
    {A : Type 0} (rs a b c d : List A) → (((rs ++ a) ++ b) ++ c) ++ d ≡ rs ++ (a ++ (b ++ (c ++ d)))
append_assoc4 rs a b c d =
    append_assoc ((rs ++ a) ++ b) c d
    ∙ append_assoc (rs ++ a) b (c ++ d)
    ∙ append_assoc rs a (b ++ (c ++ d))

release-ok :
    (b : Bool) (r : Release) (s : Clients)
    → release b r s ≡ ok tt (record s { releases = s.releases ++ when b r })
release-ok true r s = refl
release-ok false r s = rw (append-nil s.releases) refl

pub close_client-ok :
    (c : Client) (rs : List Release)
    → close_client (record { ptr = client c; releases = rs })
      ≡ ok tt
          (record { ptr = client (closed c); releases = rs ++ when (is_open c.fd) (closes c.fd) })
unfolding close_client
close_client-ok c rs =
    rw (release-ok (is_open c.fd) (closes c.fd) (record { ptr = client c; releases = rs })) refl

close_and_free-ok :
    (c : Client) (rs : List Release)
    → close_and_free (record { ptr = client c; releases = rs })
      ≡ ok tt (record { ptr = freed; releases = rs ++ held c })
unfolding close_and_free
close_and_free-ok c rs =
    rw
      (
        release-ok (is_open c.fd) (closes c.fd) (record { ptr = client c; releases = rs }),
        release-ok (is_some c.buf_ev) (frees_bufferevent c.buf_ev),
        release-ok (is_some c.evbase) (frees_base c.evbase),
        release-ok (is_some c.output_buffer) (frees_buffer c.output_buffer),
      )
      (ap (λ xs. ok tt (record { ptr = freed; releases = xs }))
        (append_assoc4 rs (when (is_open c.fd) (closes c.fd))
          (when (is_some c.buf_ev) (frees_bufferevent c.buf_ev))
          (when (is_some c.evbase) (frees_base c.evbase))
          (when (is_some c.output_buffer) (frees_buffer c.output_buffer))))

-- a client that has been closed has no descriptor
closed-shut : (c : Client) → is_open (closed c).fd ≡ false
closed-shut c = elim (Bool-cases (is_open c.fd)) [
  | inl up ↦ rw up refl
  | inr down ↦ rw (down, down) refl
]

-- However often closeClient has been called on a client, closeAndFreeClient then returns, the
-- client is freed, and over both the descriptor, the bufferevent, the base and the buffer that it
-- holds have each been given back once, in this order, and nothing that it does not hold.
closings-close_and_free :
    (n : ℕ) (c : Client) (rs : List Release)
    → (closings n >> close_and_free) (record { ptr = client c; releases = rs })
      ≡ ok tt (record { ptr = freed; releases = rs ++ held c })
unfolding closings buffered_on_error
closings-close_and_free zero c rs = close_and_free-ok c rs
closings-close_and_free (suc n) c rs = rw (close_client-ok c rs) (
    closings-close_and_free n (closed c) (rs ++ when (is_open c.fd) (closes c.fd))
    ∙ ap (λ xs. ok tt (record { ptr = freed; releases = xs }))
        (rw (closed-shut c) (append_assoc rs (when (is_open c.fd) (closes c.fd)) _)))

-- However many errors the callbacks of a client report, job_function returns with the client
-- freed, and the descriptor, the bufferevent, the base and the buffer that it holds have each
-- been given back once over all of it, in this order, and nothing that it does not hold.
pub job_function-held :
    (n : ℕ) (c : Client) (rs : List Release)
    → job_function (closings n) (record { ptr = client c; releases = rs })
      ≡ ok tt (record { ptr = freed; releases = rs ++ held c })
unfolding job_function
job_function-held n c rs = closings-close_and_free n c rs
