-- ===== src/Sanitization/Manifest/Tests.antt =====
-- Manifests, and where their secrets lie.
use hermes_memory.Base.{
  ◌≡◌, refl, [], ◌∷◌, Str, codes, length, All, lstrip, rstrip, Str-discrete, ℕ_discrete,
}
use hermes_memory.Sanitization.Manifest.{
  secret_manifest_blocks, parse, parse_lines, parse_line, split_lines, blocks_from, opens_block,
  block_end, any_above, any_below, match_key, is_empty_value, is_secret_value,
  is_document_separator, is_line_end, end_line, key_of,
}
use hermes_memory.Sanitization.Manifest.Nesting.{Within, Nested, secret_manifest_blocks-Nested}

abbrev one_secret : Str
one_secret = codes "kind: Secret\ndata:\n  a: b\nname: x\n"

blocks_of_one : secret_manifest_blocks one_secret ≡ (18, 25) ∷ []
unfolding secret_manifest_blocks parse parse_lines parse_line split_lines blocks_from opens_block
    block_end any_above any_below match_key is_empty_value is_secret_value is_document_separator
    is_line_end end_line key_of lstrip rstrip Str-discrete ℕ_discrete
blocks_of_one = refl

-- The data of a configuration map in the document behind is no secret, nor is a nested one without a kind.
abbrev two_documents : Str
two_documents =
    codes
      "kind: Secret\r\nstringData: # all\r\n  data:\r\n    a: b\r\n---\r\nkind: ConfigMap\r\ndata:\r\n  c: d\r\n"

blocks_of_two : secret_manifest_blocks two_documents ≡ (31, 50) ∷ []
unfolding secret_manifest_blocks parse parse_lines parse_line split_lines blocks_from opens_block
    block_end any_above any_below match_key is_empty_value is_secret_value is_document_separator
    is_line_end end_line key_of lstrip rstrip Str-discrete ℕ_discrete
blocks_of_two = refl

-- The items of a list. The search upwards does not see that the second `data` key opens an item itself,
-- and takes the kind of the item above for its own.
abbrev listed : Str
listed =
    codes
      "kind: List\nitems:\n- data:\n    a: b\n  kind: Secret\n- data:\n    c: d\n  kind: ConfigMap\n"

blocks_of_list : secret_manifest_blocks listed ≡ (25, 34) ∷ (57, 66) ∷ []
unfolding secret_manifest_blocks parse parse_lines parse_line split_lines blocks_from opens_block
    block_end any_above any_below match_key is_empty_value is_secret_value is_document_separator
    is_line_end end_line key_of lstrip rstrip Str-discrete ℕ_discrete
blocks_of_list = refl

-- A secret in the data of a secret: its block lies inside the other.
abbrev secret_in_secret : Str
secret_in_secret = codes "kind: Secret\ndata:\n  kind: Secret\n  data:\n    x: y\n"

blocks_of_nested : secret_manifest_blocks secret_in_secret ≡ (18, 50) ∷ (41, 50) ∷ []
unfolding secret_manifest_blocks parse parse_lines parse_line split_lines blocks_from opens_block
    block_end any_above any_below match_key is_empty_value is_secret_value is_document_separator
    is_line_end end_line key_of lstrip rstrip Str-discrete ℕ_discrete
blocks_of_nested = refl

secret_manifest_blocks-Nested_example :
    All (Within (length secret_in_secret)) (secret_manifest_blocks secret_in_secret)
    × Nested (secret_manifest_blocks secret_in_secret)
secret_manifest_blocks-Nested_example = secret_manifest_blocks-Nested secret_in_secret
