-- ===== src/Artifacts/Wacz/Packed.antt =====
-- What the zip file of an archive holds.
use mathlib.Core.Path.{subst}
use mathlib.Core.List.{append_assoc, append-nil}
use webshot.Base.{
  ◌≡◌, refl, sym, ap, ◌∙◌, ◌⊎◌, inl, inr, if◌then◌else◌, List, [], ◌∷◌, ◌++◌, length, All, Option,
  none, some, Expected-cases, ok, err,
}
use webshot.Base.Bytes.{Bytes, codes, ◌=?◌}
use webshot.Artifacts.{ArtifactError}
use webshot.Artifacts.Warc.{WarcBuildOutput}
use webshot.Artifacts.Wacz.{
  WaczLib, WaczResource, WaczDataPackage, make_cdx, make_wacz_pages_bytes, make_wacz_resource,
  make_wacz_resources, make_wacz_data_package, zip_error, add_file, add_files, finish_zip,
  wacz_files, make_wacz,
}

-- A file added is behind those that are there.
pub record ZipLaws {Zip : Type 0} (lib : WaczLib Zip) (contents : Zip → List (Bytes × Bytes))
    : Type 0 where
  pub contents-empty_zip : contents lib.empty_zip ≡ []
  pub contents-add_stored_file :
      (z z' : Zip) (path body : Bytes)
      → lib.add_stored_file z path body ≡ ok z'
      → contents z' ≡ contents z ++ (path, body) ∷ []

unfoldable pub find_file : Bytes → List (Bytes × Bytes) → Option Bytes
find_file path [] = none
find_file path (f ∷ fs) = if f.0 =? path then some f.1 else find_file path fs

module _ {Zip : Type 0} (lib : WaczLib Zip) (contents : Zip → List (Bytes × Bytes))
    (laws : ZipLaws lib contents) where
  -- The builder of zip files reports this error.
  abbrev pub IsZipError : ArtifactError → Type 0
  IsZipError e =
      (detail : Bytes) × (e ≡ zip_error lib detail)
      × (((z : Zip) × (path : Bytes) × (body : Bytes) × (lib.add_stored_file z path body
              ≡ err detail))
          ⊎ ((z : Zip) × (lib.finish z ≡ err detail)))

  -- The file at the path of a resource has its size and its hash.
  abbrev pub IsFile : List (Bytes × Bytes) → WaczResource → Type 0
  IsFile files r =
      (body : Bytes) × (find_file r.path files ≡ some body)
      × (r.hash ≡ codes "sha256:" ++ lib.sha256_hex body)
      × (r.bytes ≡ length body)

  -- The description of the archive is one of the files, and lists three others.
  abbrev pub Describes : Bytes → Bytes → WarcBuildOutput → List (Bytes × Bytes) → Type 0
  Describes seed_url pages_jsonl warc files =
      (described : WaczDataPackage) × (find_file (codes "datapackage.json") files
        ≡ some (lib.package_json described))
      × (described.title ≡ seed_url)
      × (length described.resources ≡ 3)
      × All (IsFile files) described.resources
      × (find_file (codes "archive/data.warc.gz") files ≡ some warc.bytes)
      × (find_file (codes "indexes/index.cdx") files ≡ some (make_cdx lib warc.cdx_records))

  Packs : Zip → List (Bytes × Bytes) → Type 0
  Packs z fs =
      ((z' : Zip) × (add_files lib z fs ≡ ok z') × (contents z' ≡ contents z ++ fs))
      ⊎ ((e : ArtifactError) × (add_files lib z fs ≡ err e) × IsZipError e)

  add_file-cases :
      (z : Zip) (f : Bytes × Bytes)
      → ((z' : Zip) × (add_file lib z f ≡ ok z') × (contents z' ≡ contents z ++ f ∷ []))
        ⊎ ((e : ArtifactError) × (add_file lib z f ≡ err e) × IsZipError e)
  unfolding add_file
  add_file-cases z f = elim (Expected-cases (lib.add_stored_file z f.0 f.1)) [
    | inl (z', h) ↦ inl (z', rw (add_file, h) refl, laws.contents-add_stored_file z z' f.0 f.1 h)
    | inr (d, h) ↦ inr (zip_error lib d, rw (add_file, h) refl, (d, refl, inl (z, f.0, f.1, h)))
  ]

  add_files-Packs : (fs : List (Bytes × Bytes)) (z : Zip) → Packs z fs
  unfolding add_files Packs
  add_files-Packs [] z = inl (z, refl, sym (append-nil (contents z)))
  add_files-Packs (f ∷ fs) z = elim (add_file-cases z f) [
    | inr (e, h, x) ↦ inr (e, rw h refl, x)
    | inl (y, h, c) ↦ elim (add_files-Packs fs y) [
      | inr (e, k, x) ↦ inr (e, rw (h, k) refl, x)
      | inl (z', k, d) ↦
          inl (z', rw (h, k) refl, d ∙ ap (λ l. l ++ fs) c ∙ append_assoc (contents z) (f ∷ []) fs)
    ]
  ]

  wacz_files-Describes :
      (seed_url pages_jsonl stdout_log stderr_log : Bytes) (warc : WarcBuildOutput)
      → Describes seed_url pages_jsonl warc
          (wacz_files lib seed_url pages_jsonl warc stdout_log stderr_log)
  unfolding wacz_files find_file make_wacz_resources make_wacz_resource make_wacz_data_package
  wacz_files-Describes seed_url pages_jsonl stdout_log stderr_log warc =
      let cdx = make_cdx lib warc.cdx_records in
      let pages = make_wacz_pages_bytes lib pages_jsonl in
      (
        make_wacz_data_package lib seed_url (make_wacz_resources lib warc.bytes pages cdx),
        refl,
        refl,
        refl,
        (
          (pages, refl, refl, refl),
          ((warc.bytes, refl, refl, refl), ((cdx, refl, refl, refl), tt)),
        ),
        refl,
        refl,
      )

  -- Either the builder of zip files fails and its error is returned; or the file is finished from one
  -- that holds the archive, its index and a description of them, in which each resource that is
  -- listed stands at its path, with the size and the hash that the description gives.
  pub make_wacz-Describes :
      (seed_url pages_jsonl stdout_log stderr_log : Bytes) (warc : WarcBuildOutput)
      → ((e : ArtifactError) × (make_wacz lib seed_url pages_jsonl warc stdout_log stderr_log
            ≡ err e)
          × IsZipError e)
        ⊎ ((bytes : Bytes) × (zip : Zip) × (make_wacz lib seed_url pages_jsonl warc stdout_log
                stderr_log
              ≡ ok bytes)
            × (lib.finish zip ≡ ok bytes)
            × Describes seed_url pages_jsonl warc (contents zip))
  unfolding make_wacz Packs finish_zip
  make_wacz-Describes seed_url pages_jsonl stdout_log stderr_log warc =
      let files = wacz_files lib seed_url pages_jsonl warc stdout_log stderr_log in
      elim (add_files-Packs files lib.empty_zip) [
        | inr (e, h, x) ↦ inl (e, rw h refl, x)
        | inl (zip, h, c) ↦ elim (Expected-cases (lib.finish zip)) [
          | inr (d, k) ↦ inl (zip_error lib d, rw (h, finish_zip, k) refl, (d, refl, inr (zip, k)))
          | inl (bytes, k) ↦ inr (
            bytes,
            zip,
            rw (h, finish_zip, k) refl,
            k,
            subst (Describes seed_url pages_jsonl warc)
                (sym (c ∙ ap (λ l. l ++ files) laws.contents-empty_zip))
                (wacz_files-Describes seed_url pages_jsonl stdout_log stderr_log warc),
          )
        ]
      ]
