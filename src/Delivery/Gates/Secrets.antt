-- ===== src/Delivery/Gates/Secrets.antt =====
-- The patterns of gate_evidence.py.
use optimizr_actions.Prelude.{ℕ, Bool, not, ◌||◌, List, [], ◌∷◌, Text, codes, ◌==◌, is_space}
use optimizr_actions.Prelude.Regex.{
  Regex, one, start, finish, boundary, seq, alt, star, folded, fold, opt, plus, up_to, alts, seqs,
  between, is_ascii_alnum,
}

-- A class of characters under IGNORECASE.
abbrev pub either_case : (ℕ → Bool) → Regex
either_case p = one (λ c. p c || p (fold c))

abbrev pub words : List Text → Regex
words [] = alts []
words (w ∷ []) = folded w
words (w ∷ v ∷ ws) = alt (folded w) (words (v ∷ ws))

-- `^[a-z][a-z0-9_-]{0,63}$`
abbrev pub safe_name : Regex
safe_name =
    seq (one (between b'a' b'z'))
      (up_to 63 (one (λ c. between b'a' b'z' c || between b'0' b'9' c || c == b'_' || c == b'-')))

abbrev pub is_slash : ℕ → Bool
is_slash c = c == b'/' || c == 0x5c

-- `[^/\s@]`
abbrev pub is_userinfo : ℕ → Bool
is_userinfo c = not (c == b'/' || is_space c || c == b'@')

-- `private[_ .-]?key`
abbrev pub private_key : Regex
private_key = seqs (
    folded (codes "private")
    ∷ opt (one (λ c. c == b'_' || c == b' ' || c == b'.' || c == b'-'))
    ∷ folded (codes "key")
    ∷ [])

-- The alternatives of `SECRET_LIKE_RE`, in order.
module _ (is_word : ℕ → Bool) where
  abbrev pub secret_like : Regex
  secret_like = alts (
      seqs (
        alt
          (words (
            codes "password"
            ∷ codes "passwd"
            ∷ codes "secret"
            ∷ codes "token"
            ∷ codes "authorization"
            ∷ codes "cookie"
            ∷ []))
          private_key
        ∷ star (one is_space)
        ∷ one (λ c. c == b':' || c == b'=')
        ∷ [])
      ∷ seqs (
          folded (codes "-----begin ")
          ∷ star (
              either_case (λ c.
                between b'A' b'Z' c || between b'a' b'z' c || between b'0' b'9' c || c == b' '))
          ∷ folded (codes "private key-----")
          ∷ [])
      ∷ seqs (
          boundary is_word
          ∷ folded (codes "bearer")
          ∷ plus (one is_space)
          ∷ plus (
              either_case (λ c.
                is_ascii_alnum c
                || c == b'.'
                || c == b'_'
                || c == b'~'
                || c == b'+'
                || c == b'/'
                || c == b'-'))
          ∷ star (one (λ c. c == b'='))
          ∷ [])
      ∷ seqs (
          alt start (one is_slash)
          ∷ folded (codes ".env")
          ∷ alt finish (one (λ c. c == b'.' || is_slash c))
          ∷ [])
      ∷ seqs (
          folded (codes "http")
          ∷ opt (folded (codes "s"))
          ∷ folded (codes "://")
          ∷ plus (one is_userinfo)
          ∷ one (λ c. c == b':')
          ∷ plus (one is_userinfo)
          ∷ one (λ c. c == b'@')
          ∷ [])
      ∷ seqs (
          one (λ c. c == b'?' || c == b'&')
          ∷ words (
              codes "token"
              ∷ codes "sig"
              ∷ codes "signature"
              ∷ codes "key"
              ∷ codes "secret"
              ∷ codes "password"
              ∷ [])
          ∷ one (λ c. c == b'=')
          ∷ plus (one (λ c. not (c == b'&' || is_space c)))
          ∷ [])
      ∷ [])
