-- ===== src/Protocol/Binary/Errors.antt =====
-- libmemcached/response.cc: a response of the binary protocol that tells an error.
use libmemcached.Prelude.{
  drop-length_append, ℕ, zero, suc, ◌≤◌, ◌≡◌, ◌≢◌, refl, sym, ap, subst, ◌∙◌, Bool, true, List, [],
  ◌∷◌, ◌++◌, ◌⊎◌, inl, inr, some, drop, length, arith, length-append,
}
use libmemcached.Io.{Instance}
use libmemcached.Io.Stream.{coming, Leaves}
use libmemcached.Protocol.Value.{Result}
use libmemcached.Protocol.Header.{Header, IsHeader, header_bytes}
use libmemcached.Protocol.Binary.{response_magic, after_error, binary_read_one_response}
use libmemcached.Protocol.Binary.Replies.{
  error_result, header-Continues, header_switch_empty, header_switch-skip_body,
  after_error-error_result, skip_body-Continues,
}
use libmemcached.Protocol.Status

zero_or_not : (n : ℕ) → (n ≡ 0) ⊎ (n ≢ 0)
zero_or_not zero = inl refl
zero_or_not (suc n) = inr (λ e. absurd (omega arith))

nothing_left : (body rest : List ℕ) → length body ≡ 0 → body ++ rest ≡ rest
nothing_left [] rest e = refl
nothing_left (b ∷ body) rest e = absurd (omega arith)

-- Let the bytes that are coming on a connected socket be the header of a response whose status is
-- neither success nor a continued authentication, a body of the length that the header gives, and
-- `rest`. Then `binary_read_one_response` returns with the code of that status, or with
-- MEMCACHED_FETCH_NOTFINISHED if the body is not empty and the command a quiet one; the result is left
-- alone, exactly `rest` is coming afterwards, the socket is still there, and the number of expected
-- responses has not changed.
pub binary_read_one_response-error_result :
    (allocates : ℕ → Bool) (p n : ℕ) (r : Result) (i : Instance) (h : Header) (body rest : List ℕ)
    → i.has_socket ≡ true
    → IsHeader h
    → h.magic ≡ response_magic
    → h.status ≢ Status.succeeded
    → h.status ≢ Status.auth_continue
    → length body ≡ h.bodylen
    → coming i ≡ header_bytes h ++ (body ++ rest)
    → (j : Instance) × (binary_read_one_response allocates p n r i ≡ some (error_result h, r, j))
      × Leaves i j rest
binary_read_one_response-error_result allocates p n r i h body rest o v m s a b c =
    let (j, e, l) = header-Continues allocates p n r i h (body ++ rest) o v c in
    elim (zero_or_not h.bodylen) [
      | inl z ↦ (
        j,
        e ∙ header_switch_empty allocates p n h r j m s a z,
        record {
          bytes = l.bytes ∙ nothing_left body rest (b ∙ z);
          socket = l.socket;
          responses = l.responses;
        },
      )
      | inr z ↦
          let (k, f, q) =
            skip_body-Continues (suc h.bodylen) r h.bodylen j (after_error h r) (omega arith)
              (l.socket ∙ o)
              (subst (λ xs. h.bodylen ≤ length xs) (sym l.bytes)
                (omega (arith, length-append body rest))) in
          (
            k,
            e
                ∙ header_switch-skip_body allocates p n h r j m s a z
                ∙ f
                ∙ after_error-error_result h r k z,
            record {
              bytes =
                  q.bytes
                  ∙ ap (λ d. drop d (coming j)) (sym b)
                  ∙ ap (drop (length body)) l.bytes
                  ∙ drop-length_append body rest;
              socket = q.socket ∙ l.socket;
              responses = q.responses ∙ l.responses;
            },
          )
    ]
