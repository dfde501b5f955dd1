-- ===== src/Gateway/Http/Head.antt =====
-- services/rust-sync/src/http.rs: how long a request head may get, and when more of it is awaited.
use websocket_stt_bench.Common.{
  ℕ, ◌+◌, ◌≤◌, ◌≡◌, ◌≢◌, Bool, true, none, some, List, [], ◌∷◌, length,
}
use websocket_stt_bench.Gateway.Session.{need_more}
use websocket_stt_bench.Gateway.Http.{HeadRead, head_chunk, max_header_bytes, Fed, head_before}

-- Every read gives at most `n` bytes.
abbrev pub ReadsUpTo : ℕ → List HeadRead → Type 0
ReadsUpTo n [] = Unit
ReadsUpTo n (head_chunk bs ∷ rest) = (length bs ≤ n) × ReadsUpTo n rest
ReadsUpTo n (_ ∷ rest) = ReadsUpTo n rest

Bounded : ℕ → List ℕ × Bool → Type 0
Bounded n (buf, ok) =
    (length buf ≤ max_header_bytes + n) × (ok ≡ true → length buf ≤ max_header_bytes)

-- A complete head is answered: the buffer stays, and nothing more is awaited.
Settled : List ℕ → Fed → Type 0
Settled buf f = (f.buf ≡ buf) × (f.route ≢ some need_more)

module _ (derive_accept_key : List ℕ → List ℕ) (can_write : Bool) where
  -- The request head is bounded, and `need_more` says what it should.
  record IsBounded (n : ℕ) (f : Fed) : Type 0 where
    at_most : length f.buf ≤ max_header_bytes + n
    routed : f.route ≢ none → length f.buf ≤ max_header_bytes
    awaited : f.route ≡ some need_more → head_before f.buf ≡ none
