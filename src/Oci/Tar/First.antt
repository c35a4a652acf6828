-- ===== src/Oci/Tar/First.antt =====
-- The file that `extract_tar_stream_impl` of src/fls/oci/from_oci.rs sends on.
use fls.Base.{
  ℕ, zero, suc, ◌≡◌, refl, ap, sym, ◌∙◌, Bool, true, false, List, [], ◌∷◌, ◌++◌, Option, none, some,
  append_assoc, append-nil, Bytes,
}
use fls.Oci.Text.{Text}
use fls.Oci.Tar.{
  is_disk_image, Entry, bad_entry, bad_path, entry, TarEnd, extracted, tar_error, path_error,
  read_error, channel_closed, not_found, TarChannel, sent_piece, send_content, extract_entries,
}

-- The content of a file: what is read until a read gives nothing
abbrev pub content_of : List Bytes → List Bytes
content_of [] = []
content_of ([] ∷ pieces) = []
content_of ((b ∷ piece) ∷ pieces) = (b ∷ piece) ∷ content_of pieces

-- All of the content was sent, or a beginning of it and why no more.
abbrev pub ContentSent : List Bytes → List Bytes → TarEnd × TarChannel → Type 0
ContentSent pieces before (extracted, c) = c.sent ≡ before ++ content_of pieces
ContentSent pieces before (read_error, c) = c.sent ≡ before ++ content_of pieces
ContentSent pieces before (channel_closed, c) =
    (rest : List Bytes) × (c.sent ++ rest ≡ before ++ content_of pieces)
ContentSent pieces before _ = ⊥

later-ContentSent :
    (piece : Bytes) (b : ℕ) (pieces before : List Bytes) (r : TarEnd × TarChannel)
    → ContentSent pieces (before ++ (b ∷ piece) ∷ []) r
    → ContentSent ((b ∷ piece) ∷ pieces) before r
later-ContentSent piece b pieces before (extracted, c) e =
    e ∙ append_assoc before ((b ∷ piece) ∷ []) (content_of pieces)
later-ContentSent piece b pieces before (read_error, c) e =
    e ∙ append_assoc before ((b ∷ piece) ∷ []) (content_of pieces)
later-ContentSent piece b pieces before (channel_closed, c) (rest, e) =
    (rest, e ∙ append_assoc before ((b ∷ piece) ∷ []) (content_of pieces))
later-ContentSent piece b pieces before (tar_error, c) e = absurd e
later-ContentSent piece b pieces before (path_error, c) e = absurd e
later-ContentSent piece b pieces before (not_found, c) e = absurd e

send_content-ContentSent :
    (pieces : List Bytes) (ends_well : Bool) (c : TarChannel)
    → ContentSent pieces c.sent (send_content pieces ends_well c)
unfolding send_content
send_content-ContentSent [] true c = sym (append-nil c.sent)
send_content-ContentSent [] false c = sym (append-nil c.sent)
send_content-ContentSent ([] ∷ pieces) ends_well c = sym (append-nil c.sent)
send_content-ContentSent ((b ∷ piece) ∷ pieces) ends_well c = by c.closes_after (λ o.
    later-ContentSent piece b pieces c.sent
      (send_content pieces ends_well (sent_piece c (b ∷ piece) o))
      (send_content-ContentSent pieces ends_well (sent_piece c (b ∷ piece) o)))
  where
    by :
        (o : Option ℕ)
        → ((o : Option ℕ)
            → ContentSent
                ((b ∷ piece) ∷ pieces)
                c.sent
                (send_content pieces ends_well (sent_piece c (b ∷ piece) o)))
        → ContentSent ((b ∷ piece) ∷ pieces) c.sent (elim o [
          | none ↦ send_content pieces ends_well (sent_piece c (b ∷ piece) none)
          | some zero ↦ (channel_closed, c)
          | some (suc n) ↦ send_content pieces ends_well (sent_piece c (b ∷ piece) (some n))
        ])
    by none k = k none
    by (some zero) k = ((b ∷ piece) ∷ content_of pieces, refl)
    by (some (suc n)) k = k (some n)

-- Entries that can be read and are not the disk image
abbrev pub NoImage : Option Text → List Entry → Type 0
NoImage wanted [] = Unit
NoImage wanted (bad_entry ∷ entries) = ⊥
NoImage wanted (bad_path ∷ entries) = ⊥
NoImage wanted (entry path pieces ends_well ∷ entries) =
    (is_disk_image path wanted ≡ false) × NoImage wanted entries

-- The first entries, what stands behind them, and what becomes of that
abbrev pub FirstOf : Option Text → List Entry → TarChannel → TarEnd × TarChannel → Type 0
FirstOf wanted [] c r = r ≡ (not_found, c)
FirstOf wanted (bad_entry ∷ entries) c r = r ≡ (tar_error, c)
FirstOf wanted (bad_path ∷ entries) c r = r ≡ (path_error, c)
FirstOf wanted (entry path pieces ends_well ∷ entries) c r =
    (is_disk_image path wanted ≡ true) × ContentSent pieces c.sent r

-- The entries are passed over up to the first that is the disk image or cannot be read. Of a disk image
-- all of the content is sent, in order and nothing else, unless the channel is closed or a read fails.
-- Where there is none the archive is refused, and where an entry cannot be read that is the error;
-- nothing is sent then.
pub extract_entries-FirstOf :
    (wanted : Option Text) (entries : List Entry) (c : TarChannel)
    → (before : List Entry) × (after : List Entry) × (entries ≡ before ++ after)
      × NoImage wanted before
      × FirstOf wanted after c (extract_entries wanted entries c)
unfolding extract_entries
extract_entries-FirstOf wanted [] c = ([], [], refl, tt, refl)
extract_entries-FirstOf wanted (bad_entry ∷ entries) c = ([], bad_entry ∷ entries, refl, tt, refl)
extract_entries-FirstOf wanted (bad_path ∷ entries) c = ([], bad_path ∷ entries, refl, tt, refl)
extract_entries-FirstOf wanted (entry path pieces ends_well ∷ entries) c =
    by (is_disk_image path wanted) refl (extract_entries-FirstOf wanted entries c)
  where
    here : Entry
    here = entry path pieces ends_well

    by :
        (b : Bool)
        → is_disk_image path wanted ≡ b
        → (before : List Entry) × (after : List Entry) × (entries ≡ before ++ after)
          × NoImage wanted before
          × FirstOf wanted after c (extract_entries wanted entries c)
        → (before : List Entry) × (after : List Entry) × (here ∷ entries ≡ before ++ after)
          × NoImage wanted before
          × FirstOf wanted after c (elim b [
            | true ↦ send_content pieces ends_well c
            | false ↦ extract_entries wanted entries c
          ])
    by true e rest =
        ([], here ∷ entries, refl, tt, (e, send_content-ContentSent pieces ends_well c))
    by false e (before, after, split, passed, first) =
        (here ∷ before, after, ap (λ t. here ∷ t) split, (e, passed), first)
