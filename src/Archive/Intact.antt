-- ===== src/Archive/Intact.antt =====
-- What `_read` and `load` have made sure of (src/engineering_memory/archive/local.py).
use hermes_memory.Base.{
  ◌≡◌, refl, sym, ap, ◌∙◌, true, not, Option, none, some, Str, str_eq, str_eq→eq, str_eq_self,
  subst, ok, require, translate-ok, >>=-eq-ok, arith,
}
use hermes_memory.Normalization.Provenance.{EnrichedConversation, enriched_document_id}
use hermes_memory.Normalization.Canonical.{content_hash}
use hermes_memory.Archive.{Envelope, Codec, as_value_error, payload, key, record_name}
use hermes_memory.Archive.Disk.{Disk, Faults, is_redirected, check_directory, read_bytes}
use hermes_memory.Archive.Read.{
  is_record_name, is_asked_for, parsed, verify, read_body, read, path, load,
}

-- What `_read` has made sure of.
pub record Intact (c : Codec) (name : Str) (id : Option Str) (e : Envelope) : Type 0 where
  pub described : e.envelope_id ≡ enriched_document_id e.enriched
  pub asked : is_asked_for id e.envelope_id ≡ true
  pub hashed : content_hash c.sha256 e.enriched.conversation ≡ ok e.envelope_hash
  pub digest : Str
  pub keyed : key c e.envelope_id ≡ ok digest
  pub named : name ≡ record_name digest

module _ (c : Codec) (name : Str) (id : Option Str) (e : Envelope) where
  verify-Intact : verify c name id e ≡ ok tt → Intact c name id e
  unfolding verify as_value_error
  verify-Intact h =
      let (_, described, h1) =
        >>=-eq-ok (require (str_eq e.envelope_id (enriched_document_id e.enriched)) _) _ h in
      let (_, asked, h2) = >>=-eq-ok (require (is_asked_for id e.envelope_id) _) _ h1 in
      let (digest, keyed, h3) = >>=-eq-ok (key c e.envelope_id) _ h2 in
      let (_, named, h4) = >>=-eq-ok (require (str_eq name (record_name digest)) _) _ h3 in
      let (hash, hashed, h5) =
        >>=-eq-ok (as_value_error (content_hash c.sha256 e.enriched.conversation)) _ h4 in
      record {
        described = str_eq→eq e.envelope_id (enriched_document_id e.enriched) (ground arith);
        asked = ground arith;
        hashed =
            translate-ok _ (content_hash c.sha256 e.enriched.conversation) hashed
            ∙ ap ok (sym (str_eq→eq e.envelope_hash hash (ground arith)));
        digest = digest;
        keyed = keyed;
        named = str_eq→eq name (record_name digest) (ground arith);
      }

read_body-Intact :
    (c : Codec) (f : Faults) (d : Disk) (name : Str) (id : Option Str) {e : Envelope}
    → read_body c f d name id ≡ ok e
    → Intact c name id e
unfolding read_body
read_body-Intact c f d name id {e} h =
    let (_, checked, h1) = >>=-eq-ok (check_directory f d) _ h in
    let (_, direct, h2) = >>=-eq-ok (require (not (is_redirected d name)) _) _ h1 in
    let (_, recorded, h3) = >>=-eq-ok (require (is_record_name name) _) _ h2 in
    let (data', bytes, h4) = >>=-eq-ok (read_bytes d name) _ h3 in
    let (envelope, parsed', h5) = >>=-eq-ok (parsed c data') _ h4 in
    let (_, verified, h6) = >>=-eq-ok (verify c name id envelope) _ h5 in
    let (_, sound, h7) = >>=-eq-ok (payload c envelope) _ h6 in
    let same : envelope ≡ e = ground arith in
    subst (Intact c name id) same (verify-Intact c name id envelope verified)

verify-again :
    (c : Codec) (name : Str) (e : Envelope)
    → verify c name none e ≡ ok tt
    → verify c name (some e.envelope_id) e ≡ ok tt
unfolding verify is_asked_for
verify-again c name e h = let same = str_eq_self e.envelope_id in rw same h

read_body-again :
    (c : Codec) (f : Faults) (d : Disk) (name : Str) {e : Envelope}
    → read_body c f d name none ≡ ok e
    → read_body c f d name (some e.envelope_id) ≡ ok e
unfolding read_body
read_body-again c f d name {e} h =
    let (_, checked, h1) = >>=-eq-ok (check_directory f d) _ h in
    let (_, direct, h2) = >>=-eq-ok (require (not (is_redirected d name)) _) _ h1 in
    let (_, recorded, h3) = >>=-eq-ok (require (is_record_name name) _) _ h2 in
    let (data', bytes, h4) = >>=-eq-ok (read_bytes d name) _ h3 in
    let (envelope, parsed', h5) = >>=-eq-ok (parsed c data') _ h4 in
    let (_, verified, h6) = >>=-eq-ok (verify c name none envelope) _ h5 in
    let (_, sound, h7) = >>=-eq-ok (payload c envelope) _ h6 in
    let same : envelope ≡ e = ground arith in
    let again : verify c name (some e.envelope_id) envelope ≡ ok tt =
      subst (λ x. verify c name (some x.envelope_id) envelope ≡ ok tt) same
        (verify-again c name envelope verified) in
    ground (arith, again)

-- The record of an id that was read without asking for one is also read when it is asked for.
read-again :
    (c : Codec) (f : Faults) (d : Disk) (name : Str) {e : Envelope}
    → read c f d name none ≡ ok e
    → read c f d name (some e.envelope_id) ≡ ok e
unfolding read
read-again c f d name {e} h =
    let body = translate-ok _ (read_body c f d name none) h in
    rw (read_body-again c f d name body) refl

pub read-loads :
    (c : Codec) (f : Faults) (d : Disk) (name : Str) {e : Envelope}
    → read c f d name none ≡ ok e
    → load c f d e.envelope_id ≡ ok e.enriched
unfolding load path read
read-loads c f d name {e} good =
    let again = read-again c f d name good in
    let intact =
      read_body-Intact c f d name none (translate-ok _ (read_body c f d name none) good) in
    let keyed = intact.keyed in let named = intact.named in rw (keyed, sym named, again) refl

module _ (c : Codec) (f : Faults) (d : Disk) where
  -- Whatever is in the directory, and whatever fails while it is read: a conversation that `load`
  -- returns is of the document that was asked for, and has the hash that was stored with it in a
  -- file named by the digest of that document's id.
  pub load-Intact :
      (id : Str) (e : EnrichedConversation)
      → load c f d id ≡ ok e
      → (enriched_document_id e ≡ id)
        × ((envelope : Envelope) × (name : Str) × (envelope.enriched ≡ e)
            × Intact c name (some id) envelope
            × (read c f d name (some id) ≡ ok envelope))
  unfolding load read is_asked_for
  load-Intact id e h =
      let (name, named, h1) = >>=-eq-ok (path c id) _ h in
      let (envelope, found', h2) = >>=-eq-ok (read c f d name (some id)) _ h1 in
      let intact = read_body-Intact c f d name (some id) (translate-ok _ _ found') in
      let same : envelope.enriched ≡ e = ground arith in
      (
        str_eq→eq (enriched_document_id e) id (
            ap (λ x. str_eq (enriched_document_id x) id) (sym same)
            ∙ ap (λ i. str_eq i id) (sym intact.described)
            ∙ intact.asked),
        (envelope, name, same, intact, found'),
      )
