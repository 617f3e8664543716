-- ===== src/Symbol/Upload/Node.antt =====
-- One data type of an upload, read back from what a controller writes.
use go_adstc.Prelude.{ℕ, suc, ◌<◌, ◌≡◌, ap, ◌∙◌, arith}
use go_adstc.Prelude.{List, ◌∷◌, ◌++◌, length, some}
use go_adstc.Prelude.{false, ltb, le→ltb, length-append}
use go_adstc.Prelude.{take-append_exact, drop-append_exact}
use go_adstc.Go.Binary.{Fits, read_padded, read_over-pack, read_padded-append}
use go_adstc.Symbol.{Text, DatatypeEntry, UploadChilds, upload_type, no_childs}
use go_adstc.Symbol.Arrays.{zero_entry, count_childs}
use go_adstc.Symbol.Upload.{entry_layout, entry_of, read_text, read_terminated, plain_type}
use go_adstc.Symbol.Upload.{Head, head_after, read_head, child_length, typed, sub_items_loop}
use go_adstc.Symbol.Upload.{read_childs, decode_data_type}
use go_adstc.Symbol.Upload.Measure.{nested}
use go_adstc.Symbol.Upload.Ends.{decode_data_type_leaf, decode_data_type-nested}
use go_adstc.Symbol.Upload.Written.{entry_values, head_bytes, childs_bytes}
use go_adstc.Symbol.Upload.Written.{IsEntry}
use go_adstc.Symbol.Upload.Written.{length-head_bytes}

pub read_terminated-text :
    (s rest : List ℕ) → read_terminated (length s) (s ++ (0 ∷ rest)) ≡ (s, rest)
unfolding read_terminated read_text
read_terminated-text s rest =
    let long : ltb (length (s ++ (0 ∷ rest))) (length s) ≡ false =
      le→ltb _ _ (omega (arith, length-append s (0 ∷ rest))) in
    rw (long, take-append_exact s (0 ∷ rest), drop-append_exact s (0 ∷ rest))

head_after_texts :
    (e : DatatypeEntry) (b1 b2 b3 b4 n d c : List ℕ)
    → read_terminated e.name_length b1 ≡ (n, b2)
    → read_terminated e.type_length b2 ≡ (d, b3)
    → read_terminated e.comment_length b3 ≡ (c, b4)
    → head_after (e, b1)
      ≡ record { entry = e; name = n; data_type = plain_type d; comment = c; rest = b4 }
unfolding head_after
head_after_texts e b1 b2 b3 b4 n d c p q r = rw p (rw q (rw r))

-- The head that is written is the head that is read.
read_head-head_bytes :
    (e : DatatypeEntry) (n d c rest : List ℕ)
    → Fits entry_layout (entry_values e)
    → e.name_length ≡ length n
    → e.type_length ≡ length d
    → e.comment_length ≡ length c
    → read_head (head_bytes e n d c rest)
      ≡ record { entry = e; name = n; data_type = plain_type d; comment = c; rest = rest }
unfolding read_head head_bytes
read_head-head_bytes e n d c rest fits hn hd hc =
    ap head_after (
      read_over-pack entry_layout entry_of zero_entry (entry_values e)
        (n ++ (0 ∷ (d ++ (0 ∷ (c ++ (0 ∷ rest)))))) fits)
    ∙ head_after_texts e (n ++ (0 ∷ (d ++ (0 ∷ (c ++ (0 ∷ rest)))))) (d ++ (0 ∷ (c ++ (0 ∷ rest))))
        (c ++ (0 ∷ rest)) rest n d c
        (ap (λ (k : ℕ). read_terminated k (n ++ (0 ∷ (d ++ (0 ∷ (c ++ (0 ∷ rest))))))) hn
          ∙ read_terminated-text n (d ++ (0 ∷ (c ++ (0 ∷ rest)))))
        (ap (λ (k : ℕ). read_terminated k (d ++ (0 ∷ (c ++ (0 ∷ rest))))) hd
          ∙ read_terminated-text d (c ++ (0 ∷ rest)))
        (ap (λ (k : ℕ). read_terminated k (c ++ (0 ∷ rest))) hc ∙ read_terminated-text c rest)

-- A node of the tree, given that the loop over its members reads them.
module _ (e : DatatypeEntry) (n d c : Text) (cs : UploadChilds) (fuel : ℕ) (tail : List ℕ) where
  abbrev buffer : List ℕ
  buffer = head_bytes e n d c (childs_bytes cs ++ tail)

  abbrev head : Head
  head = record {
    entry = e;
    name = n;
    data_type = plain_type d;
    comment = c;
    rest = childs_bytes cs ++ tail;
  }

  node_head : IsEntry e n d c cs → read_head buffer ≡ head
  node_head h = read_head-head_bytes e n d c (childs_bytes cs ++ tail) h.0 h.1 h.2 h.3

  node_length : IsEntry e n d c cs → child_length head buffer ≡ length (childs_bytes cs)
  node_length h = omega (
    arith,
    h.6,
    length-head_bytes e n d c (childs_bytes cs),
    length-head_bytes e n d c (childs_bytes cs ++ tail),
  )

  node_padded :
      IsEntry e n d c cs
      → read_padded (child_length (read_head buffer) buffer) (read_head buffer).rest
        ≡ (childs_bytes cs, tail)
  node_padded h =
      ap (λ (g : Head). read_padded (child_length g buffer) g.rest) (node_head h)
      ∙ ap (λ (k : ℕ). read_padded k (childs_bytes cs ++ tail)) (node_length h)
      ∙ read_padded-append (childs_bytes cs) tail

  read_members :
      (read : UploadChilds)
      → IsEntry e n d c cs
      → sub_items_loop (decode_data_type fuel) (count_childs cs) (childs_bytes cs) no_childs
        ≡ some read
      → read_childs (decode_data_type fuel) head (childs_bytes cs) ≡ some read
  unfolding read_childs
  read_members read h loop =
      let no_array : ltb 0 e.array_dim ≡ false = le→ltb 0 e.array_dim (omega (arith, h.4)) in
      rw no_array (
        ap (λ (k : ℕ). sub_items_loop (decode_data_type fuel) k (childs_bytes cs) no_childs) h.5
        ∙ loop)

  pub node_nested :
      (read : UploadChilds)
      → IsEntry e n d c cs
      → 0 < length (childs_bytes cs)
      → sub_items_loop (decode_data_type fuel) (count_childs cs) (childs_bytes cs) no_childs
        ≡ some read
      → decode_data_type (suc fuel) buffer ≡ some (upload_type e n (plain_type d) c read, tail)
  node_nested read h pos loop =
      decode_data_type-nested fuel buffer read
        (omega (arith, ap (λ (g : Head). child_length g buffer) (node_head h), node_length h))
        (unfold nested in
          ap (read_childs (decode_data_type fuel) (read_head buffer))
            (ap (λ (r : List ℕ × List ℕ). r.0) (node_padded h))
          ∙ ap (λ (g : Head). read_childs (decode_data_type fuel) g (childs_bytes cs)) (node_head h)
          ∙ read_members read h loop)
      ∙ ap
          (λ (g : Head). some (
            typed g read,
            (read_padded (child_length (read_head buffer) buffer) (read_head buffer).rest).1,
          ))
          (node_head h)
      ∙ ap (λ (r : List ℕ × List ℕ). some (upload_type e n (plain_type d) c read, r.1))
          (node_padded h)

pub node_leaf :
    (e : DatatypeEntry) (n d c : Text) (fuel : ℕ) (tail : List ℕ)
    → IsEntry e n d c no_childs
    → decode_data_type (suc fuel) (head_bytes e n d c tail)
      ≡ some (upload_type e n (plain_type d) c no_childs, tail)
unfolding childs_bytes
node_leaf e n d c fuel tail h =
    let hd : read_head (head_bytes e n d c tail) ≡ head e n d c no_childs fuel tail =
      node_head e n d c no_childs fuel tail h in
    decode_data_type_leaf fuel (head_bytes e n d c tail) (
      ap (λ (g : Head). child_length g (head_bytes e n d c tail)) hd
      ∙ node_length e n d c no_childs fuel tail h)
    ∙ ap (λ (g : Head). some (typed g no_childs, g.rest)) hd
