-- ===== src/Database/Password/Laws.antt =====
-- The encoding of the random bytes of a password, and how it is read back.
use Prim.Native.String.{len}
use operator_wordpress.Base.{
  ℕ, ◌+◌, ◌*◌, ◌/◌, ◌%◌, ◌<◌, String, ◌≡◌, refl, List, [], ◌∷◌, arith, ap, ◌∙◌,
}
use operator_wordpress.Kube.{Kube}
use operator_wordpress.Kube.Outcome.{Answer, ok, done}
use operator_wordpress.Api.{WordPress}
use operator_wordpress.Database.{mysql_secret}
use operator_wordpress.Database.Password.{
  sextets, encode_to_string, generate_password, build_mysql_secret,
}
use operator_wordpress.Database.Password.Letters.{
  Below, length, sextets_of, len-letters, sextets_of-letters,
}

-- The bytes that 6-bit values stand for, by the format's definition.
unfoldable bytes_of : List ℕ → List ℕ
bytes_of [] = []
bytes_of (i ∷ []) = []
bytes_of (i ∷ j ∷ []) = (i * 4 + j / 16) ∷ []
bytes_of (i ∷ j ∷ k ∷ []) = (i * 4 + j / 16) ∷ (j % 16 * 16 + k / 4) ∷ []
bytes_of (i ∷ j ∷ k ∷ l ∷ rest) =
    (i * 4 + j / 16) ∷ (j % 16 * 16 + k / 4) ∷ (k % 4 * 64 + l) ∷ bytes_of rest

first : (x y : ℕ) → y < 256 → x / 4 * 4 + (x % 4 * 16 + y / 16) / 16 ≡ x
first x y q = omega arith

second :
    (x y z : ℕ)
    → y < 256
    → z < 256
    → (x % 4 * 16 + y / 16) % 16 * 16 + (y % 16 * 4 + z / 64) / 4 ≡ y
second x y z q r = omega arith

third : (y z : ℕ) → z < 256 → (y % 16 * 4 + z / 64) % 4 * 64 + z % 64 ≡ z
third y z r = omega arith

alone : (x : ℕ) → x / 4 * 4 + x % 4 * 16 / 16 ≡ x
alone x = omega arith

last : (x y : ℕ) → y < 256 → (x % 4 * 16 + y / 16) % 16 * 16 + y % 16 * 4 / 4 ≡ y
last x y q = omega arith

-- Bytes become 6-bit values from which they can be read back, in a list of any length.
sextets-bytes_of : (bs : List ℕ) → Below 256 bs → bytes_of (sextets bs) ≡ bs
unfolding sextets bytes_of
sextets-bytes_of [] b = refl
sextets-bytes_of (x ∷ []) (p, b) = simp alone
sextets-bytes_of (x ∷ y ∷ []) (p, (q, b)) = simp (first x y q, last x y q)
sextets-bytes_of (x ∷ y ∷ z ∷ rest) (p, (q, (r, b))) =
    let ih = sextets-bytes_of rest b in simp (first x y q, second x y z q r, third y z r, ih)

-- Bytes become values that the alphabet has letters for.
sextets-Below : (bs : List ℕ) → Below 256 bs → Below 64 (sextets bs)
unfolding sextets
sextets-Below [] b = tt
sextets-Below (x ∷ []) (p, b) = (omega arith, (omega arith, tt))
sextets-Below (x ∷ y ∷ []) (p, (q, b)) = (omega arith, (omega arith, (omega arith, tt)))
sextets-Below (x ∷ y ∷ z ∷ rest) (p, (q, (r, b))) =
    let ih = sextets-Below rest b in (omega arith, (omega arith, (omega arith, (omega arith, ih))))

length-sextets : (bs : List ℕ) → length (sextets bs) ≡ (length bs * 4 + 2) / 3
unfolding sextets
length-sextets [] = refl
length-sextets (x ∷ []) = refl
length-sextets (x ∷ y ∷ []) = refl
length-sextets (x ∷ y ∷ z ∷ rest) = let ih = length-sextets rest in omega arith

-- The bytes that a text stands for.
unfoldable pub decode_string : String → List ℕ
unfolding bytes_of
decode_string s = bytes_of (sextets_of s)

decode_string-encode_to_string :
    (bs : List ℕ) → Below 256 bs → decode_string (encode_to_string bs) ≡ bs
unfolding decode_string encode_to_string
decode_string-encode_to_string bs b =
    ap bytes_of (sextets_of-letters (sextets bs) (sextets-Below bs b)) ∙ sextets-bytes_of bs b

len-encode_to_string :
    (bs : List ℕ) → Below 256 bs → len (encode_to_string bs) ≡ (length bs * 4 + 2) / 3
unfolding encode_to_string
len-encode_to_string bs b = len-letters (sextets bs) (sextets-Below bs b) ∙ length-sextets bs

-- A text of 32 letters from which 24 bytes can be read back.
abbrev pub Encodes : List ℕ → String → Type 0
Encodes bs password = (len password ≡ 32) × (decode_string password ≡ bs)

-- What the random source gives: 24 bytes.
abbrev pub IsKey : List ℕ → Type 0
IsKey bs = Below 256 bs × (length bs ≡ 24)

encode_to_string-Encodes : (bs : List ℕ) → IsKey bs → Encodes bs (encode_to_string bs)
encode_to_string-Encodes bs (b, n) =
    (len-encode_to_string bs b ∙ ap (λ k. (k * 4 + 2) / 3) n, decode_string-encode_to_string bs b)

module _ {K : Kube} {W : Type 0} (read : ℕ → W → Answer K (List ℕ) × W) where
  -- When the random source gives 24 bytes twice, the Secret has two passwords of 32 letters, the
  -- root's and the user's, and from each the bytes of its own read can be read back.
  pub build_mysql_secret-Encodes :
      (wp : WordPress K) (w w₁ w₂ : W) (first_key second_key : List ℕ)
      → read 24 w ≡ (ok first_key, w₁)
      → read 24 w₁ ≡ (ok second_key, w₂)
      → IsKey first_key
      → IsKey second_key
      → (root : String) × (user : String) × (build_mysql_secret read wp w
          ≡ (done (mysql_secret wp root user), w₂))
        × Encodes first_key root
        × Encodes second_key user
  unfolding build_mysql_secret
  build_mysql_secret-Encodes wp w w₁ w₂ first_key second_key a b p q = (
    encode_to_string first_key,
    encode_to_string second_key,
    simp (build_mysql_secret, generate_password, a, b),
    encode_to_string-Encodes first_key p,
    encode_to_string-Encodes second_key q,
  )
