-- ===== src/Artifacts/Pages.antt =====
-- `MakePagesJsonl` of webshotd/src/crawler/artifacts.cpp: the one page of an archive, with its title.
use webshot.Base.{
  ℕ, Bool, true, false, ◌&&◌, ltb, leb, if◌then◌else◌, [], ◌∷◌, ◌++◌, Option, none, some,
}
use webshot.Base.Maybe.{◌>>=◌}
use webshot.Base.Bytes.{Bytes, codes, starts_with}
use webshot.Base.Splitting.{cut}
use webshot.Crawl.Fallback.{ℤ, pos, negsuc}
use webshot.Artifacts.{CapturedExchange, content_type_for_headers, page_timestamp}

-- The text in front of the first occurrence of a pattern, and the text from there on.
unfoldable pub before_first : Bytes → Bytes → Option (Bytes × Bytes)
before_first pattern [] = if starts_with pattern [] then some ([], []) else none
before_first pattern (c ∷ s) =
    if starts_with pattern (c ∷ s)
    then some ([], c ∷ s)
    else elim (before_first pattern s) [ none ↦ none | some p ↦ some (c ∷ p.0, p.1) ]

abbrev pub or_empty : Option Bytes → Bytes
or_empty none = []
or_empty (some s) = s

abbrev pub title_in : Bytes → Option Bytes
title_in body = do
  opening ← before_first (codes "<title") body
  inside ← (cut b'>' opening.1).1
  closing ← before_first (codes "</title>") inside
  some closing.0

unfoldable pub extract_html_title : Bytes → Bytes
extract_html_title body = or_empty (title_in body)

-- At least 200, and below 400.
abbrev pub is_success : ℤ → Bool
is_success (pos n) = leb 200 n && ltb n 400
is_success (negsuc n) = false

pub record PageEntry : Type 0 where
  pub id : Bytes
  pub url : Bytes
  pub title : Bytes
  pub load_state : ℕ
  pub mime : Bytes
  pub seed : Bool
  pub ts : Bytes
  pub status : ℤ
  pub depth : ℕ

unfoldable pub page_entry : CapturedExchange → PageEntry
page_entry exchange = record {
  id = exchange.page_id;
  url = exchange.final_url;
  title = elim exchange.title [ some t ↦ t | none ↦ extract_html_title exchange.body ];
  load_state = if is_success exchange.status_code then 2 else 0;
  mime = content_type_for_headers exchange.headers;
  seed = true;
  ts = page_timestamp exchange;
  status = exchange.status_code;
  depth = 0;
}

-- `to_json_bytes` writes an entry, with the time of its timestamp.
unfoldable pub make_pages_jsonl : (PageEntry → Bytes) → CapturedExchange → Bytes
make_pages_jsonl to_json_bytes exchange = to_json_bytes (page_entry exchange) ++ 10 ∷ []
