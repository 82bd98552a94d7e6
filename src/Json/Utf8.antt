-- ===== src/Json/Utf8.antt =====
-- `str.encode("utf-8")`: the bytes of a text, refused at a lone surrogate.
use hermes_memory.Base.{
  ℕ, ◌+◌, ◌/◌, ◌%◌, List, [], ◌∷◌, ◌++◌, Str, ltb, leb, ◌&&◌, if◌then◌else◌, Result, ok, err, ◌>>=◌,
}

pub data EncodeError : Type 0 where
  surrogate : EncodeError

encode_point : ℕ → Result EncodeError (List ℕ)
encode_point c =
    if ltb c 0x80
    then ok (c ∷ [])
    else if ltb c 0x800
    then ok ((0xc0 + c / 0x40) ∷ (0x80 + c % 0x40) ∷ [])
    else if leb 0xd800 c && leb c 0xdfff
    then err surrogate
    else if ltb c 0x10000
    then ok ((0xe0 + c / 0x1000) ∷ (0x80 + c / 0x40 % 0x40) ∷ (0x80 + c % 0x40) ∷ [])
    else ok (
        (0xf0 + c / 0x40000)
        ∷ (0x80 + c / 0x1000 % 0x40)
        ∷ (0x80 + c / 0x40 % 0x40)
        ∷ (0x80 + c % 0x40)
        ∷ [])

unfoldable pub encode : Str → Result EncodeError (List ℕ)
unfolding encode_point
encode [] = ok []
encode (c ∷ cs) = do b ← encode_point c; bs ← encode cs; ok (b ++ bs)
