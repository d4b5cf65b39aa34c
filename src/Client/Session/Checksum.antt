-- ===== src/Client/Session/Checksum.antt =====
-- The checksum of an instance id.
use js_sdks.Common.{
  ℕ, ◌*◌, ◌%◌, ◌<◌, ◌≡◌, refl, ap, ap₂, ◌∙◌, [], ◌∷◌, ◌++◌, Text, codes, length, length-append,
  pad_start, length-pad_start, to_hex, length-to_hex, ℤ, pos, to_uint32, xor, imul,
  to_uint32-to_int32, arith,
}
use Prim.Native.Nat.{bit_xor}
use js_sdks.Client.Session.{mix, fnv1a, hex_word, checksum_for}

-- FNV-1a of 32 bits: each unit is put into the hash by an exclusive or, which is then multiplied by the
-- prime, all on unsigned words.
unfoldable pub fnv1a_of_words : Text → ℕ → ℕ
fnv1a_of_words [] hash = hash
fnv1a_of_words (c ∷ input) hash =
    fnv1a_of_words input (bit_xor hash (c % 4294967296) * 16777619 % 4294967296)

times_prime : (x : ℕ) → x % 4294967296 * 16777619 % 4294967296 ≡ x * 16777619 % 4294967296
times_prime x = omega arith

unsigned_step :
    (hash : ℤ) (c : ℕ)
    → to_uint32 (imul (xor hash (pos c)) (pos 0x01000193))
      ≡ bit_xor (to_uint32 hash) (c % 4294967296) * 16777619 % 4294967296
unsigned_step hash c =
    let mixed = bit_xor (to_uint32 hash) (c % 4294967296) in
    to_uint32-to_int32 (to_uint32 (xor hash (pos c)) * 16777619)
    ∙ ap (λ x. x * 16777619 % 4294967296) (to_uint32-to_int32 mixed)
    ∙ times_prime mixed

to_uint32-mix :
    (input : Text) (hash : ℤ) → to_uint32 (mix input hash) ≡ fnv1a_of_words input (to_uint32 hash)
unfolding mix fnv1a_of_words
to_uint32-mix [] hash = refl
to_uint32-mix (c ∷ input) hash =
    to_uint32-mix input (imul (xor hash (pos c)) (pos 0x01000193))
    ∙ ap (fnv1a_of_words input) (unsigned_step hash c)

fnv1a_lem :
    (input : Text) (hash : ℕ)
    → hash < 4294967296
    → fnv1a input (pos hash) ≡ pos (fnv1a_of_words input hash)
unfolding fnv1a
fnv1a_lem input hash h =
    ap pos (to_uint32-mix input (pos hash) ∙ ap (fnv1a_of_words input) (omega arith))

fnv1a_of_words_below :
    (input : Text) (hash : ℕ) → hash < 4294967296 → fnv1a_of_words input hash < 4294967296
unfolding fnv1a_of_words
fnv1a_of_words_below [] hash h = h
fnv1a_of_words_below (c ∷ input) hash h = fnv1a_of_words_below input _ (omega arith)

-- Eight hexadecimal digits.
abbrev pub word_text : ℕ → Text
word_text n = pad_start 8 b'0' (to_hex n)

length-word_text : (n : ℕ) → n < 4294967296 → length (word_text n) ≡ 8
length-word_text n h = length-pad_start 8 b'0' (to_hex n) (length-to_hex n h)

module _ (decimal : ℤ → Text) (id : Text) (created_at : ℕ) where
  -- The salt, the id and the time of its creation, and the two hashes of them.
  abbrev pub payload : Text
  payload = codes "configdirector.instanceId.v1|" ++ id ++ codes "|" ++ decimal (pos created_at)

  abbrev pub low_hash : ℕ
  low_hash = fnv1a_of_words payload 2166136261

  abbrev pub high_hash : ℕ
  high_hash = fnv1a_of_words (decimal (pos low_hash) ++ codes "|" ++ payload) 16777619

  -- The checksum, which is computed on signed words, is made of two FNV-1a hashes of the salt, the id and
  -- the time, the second one over the first as well, each written as the eight hexadecimal digits of
  -- an unsigned word, so that it has 16 digits.
  pub checksum_for-fnv1a_of_words :
      (checksum_for decimal id created_at ≡ word_text high_hash ++ word_text low_hash)
      × (length (checksum_for decimal id created_at) ≡ 16)
  unfolding checksum_for
  checksum_for-fnv1a_of_words =
      let low = fnv1a_lem payload 2166136261 (omega arith) in
      let high =
        ap (λ n. fnv1a (decimal n ++ codes "|" ++ payload) (pos 16777619)) low
        ∙ fnv1a_lem (decimal (pos low_hash) ++ codes "|" ++ payload) 16777619 (omega arith) in
      let both = ap₂ (λ a b. hex_word a ++ hex_word b) high low in
      (
        both,
        ap length both
            ∙ omega (
              arith,
              length-append (word_text high_hash) (word_text low_hash),
              length-word_text high_hash (fnv1a_of_words_below _ 16777619 (omega arith)),
              length-word_text low_hash (fnv1a_of_words_below payload 2166136261 (omega arith)),
            ),
      )
