-- ===== src/ByteArray/Streams.antt =====
-- Calls on a ByteArray seen from outside: what a call appends to the bytes written so far, and what
-- it takes off the bytes that are left to read. Both kinds compose along a `do` block.
use seaice.Prelude.{
  ℕ, ◌≡◌, refl, ◌∙◌, ap, sym, subst, List, [], ◌++◌, append_assoc, append-nil, length,
}
use seaice.Endian.{Endian}
use seaice.ByteArray.{ByteArray, Result, M, ok, ◌>>=◌, ◌>>◌, and_then, return, write, read, set_pos}
use seaice.ByteArray.Append.{Appending, write-Appending}
use seaice.ByteArray.Read.{Reading, read-Reading}
use seaice.ByteArray.Position.{reread}
use seaice.ByteArray.Position.{rewind}

pub record Sink (e : Endian) (b : ByteArray) (text : List ℕ) : Type 0 where
  pub appending : Appending b text
  pub order : b.endian ≡ e

pub record Source (e : Endian) (b : ByteArray) (text : List ℕ) : Type 0 where
  pub reading : Reading b text
  pub order : b.endian ≡ e

-- The call succeeds with `v` and appends `bs`.
abbrev pub Emits {ℓ} : {A : Type ℓ} → Endian → M A → List ℕ → A → Type ℓ
Emits e m bs v =
    (b : ByteArray) (text : List ℕ)
    → Sink e b text
    → (c : ByteArray) × (m b ≡ (c, ok v)) × Sink e c (text ++ bs)

abbrev pub Writes : Endian → M (Unit {0}) → List ℕ → Type 0
Writes e m bs = Emits e m bs tt

-- The call succeeds with `v` wherever the unread bytes begin with `bs`, and takes just these.
abbrev pub Reads {ℓ} : {A : Type ℓ} → Endian → M A → List ℕ → A → Type ℓ
Reads e m bs v =
    (b : ByteArray) (rest : List ℕ)
    → Source e b (bs ++ rest)
    → (c : ByteArray) × (m b ≡ (c, ok v)) × Source e c rest

module _ (e : Endian) where
  pub write-Writes : (bs : List ℕ) → Writes e (write bs) bs
  write-Writes bs b text s =
      let (c, eq, a, same) = write-Appending bs b text s.appending in
      (c, eq, record { appending = a; order = same.endian ∙ s.order })

  pub Writes->> {ℓ} :
      {A : Type ℓ} (m : M (Unit {0})) (k : M A) (bs cs : List ℕ) (v : A)
      → Writes e m bs
      → Emits e k cs v
      → Emits e (m >> k) (bs ++ cs) v
  Writes->> m k bs cs v hm hk b text s =
      let (c, eq, t) = hm b text s in
      let (d, eq', u) = hk c (text ++ bs) t in
      (
        d,
        ap (λ (o : ByteArray × Result (Unit {0})). and_then o (λ _. k)) eq ∙ eq',
        subst (Sink e d) (append_assoc text bs cs) u,
      )

  pub Emits->>= {ℓ κ} :
      {A : Type ℓ} {B : Type κ} (m : M A) (f : A → M B) (bs cs : List ℕ) (v : A) (w : B)
      → Emits e m bs v
      → Emits e (f v) cs w
      → Emits e (m >>= f) (bs ++ cs) w
  Emits->>= {A} {B} m f bs cs v w hm hf b text s =
      let (c, eq, t) = hm b text s in
      let (d, eq', u) = hf c (text ++ bs) t in
      (
        d,
        ap (λ (o : ByteArray × Result A). and_then o f) eq ∙ eq',
        subst (Sink e d) (append_assoc text bs cs) u,
      )

  pub Emits-return {ℓ} : {A : Type ℓ} (v : A) → Emits e (return v) [] v
  Emits-return v b text s = (b, refl, subst (Sink e b) (sym (append-nil text)) s)

  pub read-Reads : (bs : List ℕ) (n : ℕ) → n ≡ length bs → Reads e (read n) bs bs
  read-Reads bs n h b rest s =
      let (c, eq, r, same) = read-Reading n b bs rest s.reading h in
      (c, eq, record { reading = r; order = same.endian ∙ s.order })

  pub Reads-return {ℓ} : {A : Type ℓ} (v : A) → Reads e (return v) [] v
  Reads-return v b rest s = (b, refl, s)

  pub Reads->>= {ℓ κ} :
      {A : Type ℓ} {B : Type κ} (m : M A) (f : A → M B) (bs cs : List ℕ) (v : A) (w : B)
      → Reads e m bs v
      → Reads e (f v) cs w
      → Reads e (m >>= f) (bs ++ cs) w
  Reads->>= {A} {B} m f bs cs v w hm hf b rest s =
      let (c, eq, t) = hm b (cs ++ rest) (subst (Source e b) (append_assoc bs cs rest) s) in
      let (d, eq', u) = hf c rest t in
      (d, ap (λ (o : ByteArray × Result A). and_then o f) eq ∙ eq', u)

  -- What has been written can be read back from the start.
  pub Sink-rewind :
      (b : ByteArray) (text : List ℕ)
      → Sink e b text
      → (c : ByteArray) × (set_pos 0 b ≡ (c, ok tt)) × Source e c text
  Sink-rewind b text s =
      let (c, eq, r, same) = rewind b text s.appending in
      (c, eq, record { reading = r; order = same.endian ∙ s.order })

  -- What has been written behind `text` can be read back from there.
  pub Sink-reread :
      (b : ByteArray) (text bs : List ℕ)
      → Sink e b (text ++ bs)
      → (c : ByteArray) × (set_pos (length text) b ≡ (c, ok tt)) × Source e c bs
  Sink-reread b text bs s =
      let (c, eq, r, same) = reread b text bs s.appending in
      (c, eq, record { reading = r; order = same.endian ∙ s.order })
