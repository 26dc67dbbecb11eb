-- ===== src/Retry/Patterns.antt =====
-- The signatures of permanent and of transient registry failures.
use optimizr_actions.Prelude.{ℕ, Bool, List, [], ◌∷◌, Text, codes, any, if◌then◌else◌}
use optimizr_actions.Prelude.Regex.{
  Regex, one, boundary, seq, alt, folded, opt, seqs, alts, search, fold,
}

-- What `\w` and `\d` match is a table of Unicode.
pub record CharTables : Type 0 where
  pub is_word : ℕ → Bool
  pub is_decimal : ℕ → Bool

pub data Failure : Type 0 where
  permanent transient unclassified : Failure

module _ (tables : CharTables) where
  abbrev pub word : Regex → Regex
  word r = seqs (boundary tables.is_word ∷ r ∷ boundary tables.is_word ∷ [])

  abbrev pub permanent_patterns : List Regex
  permanent_patterns =
      word (folded (codes "unauthorized"))
      ∷ folded (codes "authentication required")
      ∷ folded (codes "incorrect username or password")
      ∷ word (folded (codes "denied"))
      ∷ word (alt (folded (codes "401")) (folded (codes "403")))
      ∷ word (folded (codes "forbidden"))
      ∷ folded (codes "manifest unknown")
      ∷ folded (codes "name unknown")
      ∷ folded (codes "no such manifest")
      ∷ word (folded (codes "not found"))
      ∷ folded (codes "invalid reference format")
      ∷ folded (codes "repository name must be lowercase")
      ∷ []

  abbrev pub digit : Regex
  digit = one tables.is_decimal

  abbrev pub transient_patterns : List Regex
  transient_patterns =
      folded (codes "no route to host")
      ∷ folded (codes "network is unreachable")
      ∷ folded (codes "could not resolve host")
      ∷ folded (codes "temporary failure in name resolution")
      ∷ folded (codes "no such host")
      ∷ folded (codes "server misbehaving")
      ∷ folded (codes "i/o timeout")
      ∷ folded (codes "tls handshake timeout")
      ∷ folded (codes "context deadline exceeded")
      ∷ seq (alt (folded (codes "operation")) (folded (codes "connection")))
          (folded (codes " timed out"))
      ∷ folded (codes "timeout exceeded while awaiting headers")
      ∷ folded (codes "connection reset by peer")
      ∷ folded (codes "connection refused")
      ∷ folded (codes "broken pipe")
      ∷ folded (codes "unexpected eof")
      ∷ folded (codes "request canceled")
      ∷ word (
          alts (
            folded (codes "502 bad gateway")
            ∷ folded (codes "503 service unavailable")
            ∷ folded (codes "504 gateway timeout")
            ∷ []))
      ∷ seqs (
          folded (codes "unexpected ")
          ∷ opt (folded (codes "http "))
          ∷ folded (codes "status")
          ∷ opt (folded (codes " code"))
          ∷ opt (folded (codes ":"))
          ∷ folded (codes " ")
          ∷ alt (folded (codes "429")) (seqs (folded (codes "5") ∷ digit ∷ digit ∷ []))
          ∷ [])
      ∷ alt (folded (codes "toomanyrequests")) (folded (codes "too many requests"))
      ∷ []

  unfoldable pub classify : Text → Failure
  unfolding search fold
  classify output =
      if any (λ r. search r output) permanent_patterns
      then permanent
      else if any (λ r. search r output) transient_patterns
      then transient
      else unclassified
