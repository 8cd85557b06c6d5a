-- ===== src/Log/Cache.antt =====
-- What the operations of the buffer cache do to the disk and to what readers see.
use mit6s.Base.{ℕ, ◌≡◌, refl, arith, ◌∷◌, update}
use mit6s.Log.{Block, Kernel, view, bread, modify, bwrite, bunpin, set_header, Header}

module _ (b : ℕ) (s : Kernel) where
  pub view-bread : (x : ℕ) → view (bread b s) x ≡ view s x
  unfolding view bread
  view-bread x = ground arith

  pub view-bwrite : (x : ℕ) → view (bwrite b s) x ≡ view s x
  unfolding view bwrite
  view-bwrite x = ground arith

  pub view-bunpin : (x : ℕ) → view (bunpin b s) x ≡ view s x
  unfolding view bunpin
  view-bunpin x = refl

  pub disk-bread : (bread b s).disk ≡ s.disk
  unfolding bread
  disk-bread = refl

  pub disk-bwrite : (bwrite b s).disk ≡ update s.disk b (view s b)
  unfolding bwrite
  disk-bwrite = refl

  pub disk-bunpin : (bunpin b s).disk ≡ s.disk
  unfolding bunpin
  disk-bunpin = refl

  pub images-bread : (bread b s).images ≡ s.images
  unfolding bread
  images-bread = refl

  pub images-bwrite : (bwrite b s).images ≡ update s.disk b (view s b) ∷ s.images
  unfolding bwrite
  images-bwrite = refl

  pub images-bunpin : (bunpin b s).images ≡ s.images
  unfolding bunpin
  images-bunpin = refl

  pub log-bread : (bread b s).log ≡ s.log
  unfolding bread
  log-bread = refl

  pub log-bwrite : (bwrite b s).log ≡ s.log
  unfolding bwrite
  log-bwrite = refl

  pub log-bunpin : (bunpin b s).log ≡ s.log
  unfolding bunpin
  log-bunpin = refl

module _ (b : ℕ) (x : Block) (s : Kernel) where
  pub view-modify : (y : ℕ) → view (modify b x s) y ≡ update (view s) b x y
  unfolding view modify
  view-modify y = ground arith

  pub disk-modify : (modify b x s).disk ≡ s.disk
  unfolding modify
  disk-modify = refl

  pub images-modify : (modify b x s).images ≡ s.images
  unfolding modify
  images-modify = refl

  pub log-modify : (modify b x s).log ≡ s.log
  unfolding modify
  log-modify = refl

module _ (h : Header) (s : Kernel) where
  pub view-set_header : (x : ℕ) → view (set_header h s) x ≡ view s x
  unfolding view set_header
  view-set_header x = refl

  pub disk-set_header : (set_header h s).disk ≡ s.disk
  unfolding set_header
  disk-set_header = refl

  pub images-set_header : (set_header h s).images ≡ s.images
  unfolding set_header
  images-set_header = refl

  pub log-set_header : (set_header h s).log ≡ record (s.log) { lh = h }
  unfolding set_header
  log-set_header = refl

pub ruleset view_laws = (
  view-set_header, disk-set_header, images-set_header, log-set_header, view-bread, view-bwrite,
  view-bunpin, view-modify, disk-bread, disk-bwrite, disk-bunpin, disk-modify, images-bread,
  images-bwrite, images-bunpin, images-modify, log-bread, log-bwrite, log-bunpin, log-modify,
)
