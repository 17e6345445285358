-- ===== src/Buffer/Content.antt =====
-- What ByteBuffer.h holds between its two indices, under each of its operations.
use flux_gate.Base.{
  ℕ, zero, ◌+◌, ◌-◌, ◌≤◌, ◌<◌, ◌≡◌, refl, sym, ap, ◌∙◌, ◌⊎◌, ◌↔◌, length_zero, inl, inr, true, List,
  [], ◌++◌, append_assoc, length, take, drop, ◌==◌, ltb, arith, word_mod, add64, add64-eq, sub64-eq,
  length-append, length-take, length-drop, length-replicate, take-append_at, drop-append_le,
  drop-drop, drop-take, drop_all, Bool-cases, ==_iff, ◌&&◌,
}
use flux_gate.Buffer.{
  ByteBuffer, new_buffer, readable_bytes, writable_bytes, is_empty, read_data, fill, has_written,
  consume, make_writable,
}

pub record IsValid (b : ByteBuffer) : Type 0 where
  pub ordered : b.read_index ≤ b.write_index
  pub fits : b.write_index ≤ length b.storage
  pub small : length b.storage < word_mod
  -- An empty buffer starts over.
  pub reset : b.read_index ≡ b.write_index → b.write_index ≡ 0

abbrev pub capacity : ByteBuffer → ℕ
capacity b = length b.storage

-- The bytes received and not yet sent, oldest first.
abbrev pub content : ByteBuffer → List ℕ
content b = drop b.read_index (take b.write_index b.storage)

module _ (b : ByteBuffer) (v : IsValid b) where
  pub readable-eq : readable_bytes b ≡ b.write_index - b.read_index
  unfolding readable_bytes
  readable-eq = sub64-eq _ _ v.ordered (omega (arith, v.fits, v.small))

  pub writable-eq : writable_bytes b ≡ length b.storage - b.write_index
  unfolding writable_bytes
  writable-eq = sub64-eq _ _ v.fits v.small

  pub length-content : length (content b) ≡ b.write_index - b.read_index
  length-content = omega (
    arith,
    v.ordered,
    v.fits,
    length-drop b.read_index (take b.write_index b.storage),
    length-take b.write_index b.storage,
  )

  -- What `send` is given is the content.
  pub read_data-content : read_data b ≡ content b
  unfolding read_data
  read_data-content = rw readable-eq (sym (drop-take b.read_index b.write_index b.storage))

  pub readable-length : readable_bytes b ≡ length (content b)
  readable-length = readable-eq ∙ sym length-content

  pub length-read_data : length (read_data b) ≡ readable_bytes b
  length-read_data = ap length read_data-content ∙ sym readable-length

pub new_buffer-IsValid : (n : ℕ) → n < word_mod → IsValid (new_buffer n)
unfolding new_buffer
new_buffer-IsValid n h =
    let e = length-replicate n (zero) in
    record {
      ordered = omega arith;
      fits = omega arith;
      small = omega (arith, e);
      reset = λ h. refl;
    }

pub capacity-new_buffer : (n : ℕ) → capacity (new_buffer n) ≡ n
unfolding new_buffer
capacity-new_buffer n = length-replicate n 0

pub content-new_buffer : (n : ℕ) → content (new_buffer n) ≡ []
unfolding new_buffer
content-new_buffer n = refl

pub is_empty_iff : (b : ByteBuffer) → IsValid b → (is_empty b ≡ true) ↔ (content b ≡ [])
unfolding is_empty
is_empty_iff b v = (
  λ h. length_zero _ (sym (readable-length b v) ∙ (==_iff _ _).0 h),
  λ h. (==_iff _ _).1 (readable-length b v ∙ ap length h),
)

-- `recv` of at most the writable bytes: the content grows at its end.
module _ (b : ByteBuffer) (v : IsValid b) (xs : List ℕ) (h : length xs ≤ writable_bytes b) where
  room : b.write_index + length xs ≤ length b.storage
  room = omega (arith, h, writable-eq b v, v.fits)

  length-take_write : length (take b.write_index b.storage) ≡ b.write_index
  length-take_write = omega (arith, v.fits, length-take b.write_index b.storage)

  pub capacity-fill : capacity (fill b xs) ≡ capacity b
  unfolding fill
  capacity-fill = omega (
    arith,
    room,
    length-take_write,
    length-append (take b.write_index b.storage) (xs ++ drop (b.write_index + length xs) b.storage),
    length-append xs (drop (b.write_index + length xs) b.storage),
    length-drop (b.write_index + length xs) b.storage,
  )

  abbrev pub received : ByteBuffer
  received = has_written (fill b xs) (length xs)

  write-received : received.write_index ≡ b.write_index + length xs
  unfolding has_written fill
  write-received = add64-eq _ _ (omega (arith, room, v.small))

  pub capacity-received : capacity received ≡ capacity b
  unfolding has_written
  capacity-received = capacity-fill

  read-received : received.read_index ≡ b.read_index
  unfolding has_written fill
  read-received = refl

  pub received-IsValid : IsValid received
  received-IsValid = record {
    ordered = omega (arith, read-received, write-received, v.ordered);
    fits = omega (arith, write-received, capacity-received, room);
    small = omega (arith, capacity-received, v.small);
    reset = λ h. omega (arith, h, read-received, write-received, v.ordered, v.reset);
  }

  storage-received :
      received.storage
      ≡ (take b.write_index b.storage ++ xs) ++ drop (b.write_index + length xs) b.storage
  unfolding has_written fill
  storage-received =
      sym (
        append_assoc (take b.write_index b.storage) xs (drop (b.write_index + length xs) b.storage))

  pub content-received : content received ≡ content b ++ xs
  content-received =
      let cut =
        take-append_at (b.write_index + length xs) (take b.write_index b.storage ++ xs)
          (drop (b.write_index + length xs) b.storage)
          (omega (arith, length-take_write, length-append (take b.write_index b.storage) xs)) in
      rw (write-received, read-received, storage-received, cut)
        (drop-append_le b.read_index (take b.write_index b.storage) xs
          (omega (arith, length-take_write, v.ordered)))

-- `send` of at most the readable bytes: the content shrinks at its front.
module _ (b : ByteBuffer) (v : IsValid b) (n : ℕ) (h : n ≤ readable_bytes b) where
  advanced : add64 b.read_index n ≡ b.read_index + n
  advanced = add64-eq _ _ (omega (arith, h, readable-eq b v, v.ordered, v.fits, v.small))

  pub capacity-consume : capacity (consume b n) ≡ capacity b
  unfolding consume
  capacity-consume = ground arith

  pub consume-IsValid : IsValid (consume b n)
  unfolding consume
  consume-IsValid = ground (arith, h, readable-eq b v, v.ordered, v.fits, v.small, advanced)

  pub content-consume : content (consume b n) ≡ drop n (content b)
  unfolding consume
  content-consume = elim (Bool-cases (add64 b.read_index n == b.write_index)) [
    | inl done ↦
        let e = (==_iff _ _).0 done in
        rw done (sym (drop_all n (content b) (omega (arith, length-content b v, e, advanced))))
    | inr more ↦ rw (more, advanced) (sym (drop-drop n b.read_index (take b.write_index b.storage)))
  ]

-- Moving the content to the front changes neither it nor the capacity.
module _ (b : ByteBuffer) (v : IsValid b) where
  length-moved : length (read_data b ++ drop (readable_bytes b) b.storage) ≡ length b.storage
  length-moved = omega (
    arith,
    length-append (read_data b) (drop (readable_bytes b) b.storage),
    length-read_data b v,
    readable-eq b v,
    v.fits,
    length-drop (readable_bytes b) b.storage,
  )

  pub capacity-make_writable : capacity (make_writable b) ≡ capacity b
  unfolding make_writable
  capacity-make_writable = ground (arith, length-moved)

  pub make_writable-IsValid : IsValid (make_writable b)
  unfolding make_writable
  make_writable-IsValid = ground (arith, length-moved, readable-eq b v, v.ordered, v.fits, v.small)

  pub content-make_writable : content (make_writable b) ≡ content b
  unfolding make_writable
  content-make_writable = elim (Bool-cases (writable_bytes b == 0 && ltb 0 b.read_index)) [
    | inl full ↦ rw full (
        take-append_at (readable_bytes b) (read_data b) (drop (readable_bytes b) b.storage)
          (sym (length-read_data b v))
        ∙ read_data-content b v)
    | inr free ↦ rw free
  ]

  make_writable_indices :
      ((writable_bytes b ≡ 0)
        × ((make_writable b).read_index ≡ 0)
        × ((make_writable b).write_index ≡ readable_bytes b)
        × (0 < b.read_index))
      ⊎ ((make_writable b ≡ b) × ((0 < writable_bytes b) ⊎ (b.read_index ≡ 0)))
  unfolding make_writable
  make_writable_indices = ground arith

  -- After `makeWritable` a valid buffer has no room to write exactly when its content takes all
  -- of its capacity.
  pub make_writable_room :
      (writable_bytes (make_writable b) ≡ 0) ↔ (length (content b) ≡ capacity b)
  make_writable_room = elim make_writable_indices [
    | inl (z, r, w, p) ↦ (
      λ h. omega (arith, h, z, w, after_room, bounds),
      λ h. omega (arith, h, z, w, p, after_room, bounds),
    )
    | inr (same, c) ↦
        rw same ((λ h. omega (arith, h, bounds, c)), (λ h. omega (arith, h, bounds, c)))
  ]
    where
      after_room :
          writable_bytes (make_writable b) ≡ length b.storage - (make_writable b).write_index
      after_room =
          writable-eq _ make_writable-IsValid
          ∙ ap (λ t. t - (make_writable b).write_index) capacity-make_writable

      bounds :
          (readable_bytes b ≡ b.write_index - b.read_index)
          × (writable_bytes b ≡ length b.storage - b.write_index)
          × (length (content b) ≡ b.write_index - b.read_index)
          × (b.read_index ≤ b.write_index)
          × (b.write_index ≤ length b.storage)
      bounds = (readable-eq b v, writable-eq b v, length-content b v, v.ordered, v.fits)
