-- ===== src/Backend/Cursor.antt =====
-- backend/app/lib/cursor.py: the cursors of the listings of alerts. What Python's json and base64 do is
-- a record of arguments, with what their documentation says of them. A cursor that the server did not
-- make can make them raise, which is left out.
use Prim.Native.Char.{Char}
use Prim.Native.String.{◌++◌}
use Prim.Native.String.{count}
use text.Mathlib.TextLemmas.{nil-append, cons-append}
use itdashboard.Prelude.{
  ℕ, zero, suc, ◌+◌, ◌-◌, ◌%◌, ◌<◌, ◌≡◌, refl, sym, ap, ◌∙◌, String, Bool, true, false, ◌&&◌, arith,
  str_eq, if◌then◌else◌,
}
use itdashboard.Backend.Pages.{Key, Codec}

abbrev pub is_pad : Char → Bool
is_pad c = str_eq (String.◌∷◌ c String.[]) "="

abbrev pub is_empty : String → Bool
is_empty String.[] = true
is_empty (String.◌∷◌ c s) = false

-- `s.rstrip("=")`
unfoldable pub strip_pad : String → String
strip_pad String.[] = ""
strip_pad (String.◌∷◌ c s) =
    let rest = strip_pad s in if is_pad c && is_empty rest then "" else String.◌∷◌ c rest

-- `"=" * n`
unfoldable pub pad : ℕ → String
pad zero = ""
pad (suc n) = String.◌∷◌ "=" (pad n)

abbrev pub Unpadded : String → Type 0
Unpadded String.[] = Unit
Unpadded (String.◌∷◌ c s) = (is_pad c ≡ false) × Unpadded s

-- A text in Base64 fills up its last group of four with at most two `=`, and has no other.
pub record IsBase64 (s : String) : Type 0 where
  pub body : String
  pub pads : ℕ
  pub filled : s ≡ body ++ pad pads
  pub unpadded : Unpadded body
  pub few : pads < 3
  pub groups : (count body + pads) % 4 ≡ 0

pub record Encodings : Type 0 where
  pub dumps : Key → String
  pub loads : String → Key
  pub urlsafe_b64encode : String → String
  pub urlsafe_b64decode : String → String
  pub loads-dumps : (k : Key) → loads (dumps k) ≡ k
  pub decode-encode : (s : String) → urlsafe_b64decode (urlsafe_b64encode s) ≡ s
  pub encode-IsBase64 : (s : String) → IsBase64 (urlsafe_b64encode s)

module _ (e : Encodings) where
  unfoldable pub encode_cursor : Key → String
  unfolding strip_pad
  encode_cursor k = strip_pad (e.urlsafe_b64encode (e.dumps k))

  -- `-len(cursor) % 4` is that many characters up to the next multiple of 4.
  unfoldable pub decode_cursor : String → Key
  unfolding pad
  decode_cursor cursor = e.loads (e.urlsafe_b64decode (cursor ++ pad ((4 - count cursor % 4) % 4)))

strip_pad-pad : (n : ℕ) → strip_pad (pad n) ≡ ""
unfolding strip_pad pad
strip_pad-pad zero = refl
strip_pad-pad (suc n) = rw (strip_pad-pad n, strip_pad) refl

-- The body of a text is left when its pads are stripped.
strip_pad_body : (body : String) (n : ℕ) → Unpadded body → strip_pad (body ++ pad n) ≡ body
unfolding strip_pad
strip_pad_body String.[] n h = ap strip_pad (nil-append (pad n)) ∙ strip_pad-pad n
strip_pad_body (String.◌∷◌ c s) n h =
    ap strip_pad (cons-append c s (pad n)) ∙ rw (h.0, strip_pad_body s n h.1) refl

-- What is stripped is filled up again.
fill_up : (s : String) → IsBase64 s → strip_pad s ++ pad ((4 - count (strip_pad s) % 4) % 4) ≡ s
fill_up s h =
    let stripped : strip_pad s ≡ h.body =
      ap strip_pad h.filled ∙ strip_pad_body h.body h.pads h.unpadded in
    let missing : (4 - count h.body % 4) % 4 ≡ h.pads =
      let few = h.few in let groups = h.groups in omega (arith, few, groups) in
    rw (stripped, missing) (sym h.filled)

pub decode-encode : (e : Encodings) (k : Key) → decode_cursor e (encode_cursor e k) ≡ k
unfolding decode_cursor encode_cursor
decode-encode e k =
    let raw = e.urlsafe_b64encode (e.dumps k) in
    ap (λ (s : String). e.loads (e.urlsafe_b64decode s))
      (fill_up raw (e.encode-IsBase64 (e.dumps k)))
    ∙ ap e.loads (e.decode-encode (e.dumps k))
    ∙ e.loads-dumps k

-- The cursors of the listings.
unfoldable pub codec : Encodings → Codec String
codec e = record {
  encode = encode_cursor e;
  decode = decode_cursor e;
  decode-encode = decode-encode e;
}
