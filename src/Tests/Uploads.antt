-- ===== src/Tests/Uploads.antt =====
-- A file is replaced: its bytes had the hash 55, and the new ones have the hash 66.
use assistant_memory.Prelude.{◌≡◌, refl, true, false, none, some, [], ◌∷◌, contains}
use assistant_memory.Partition.Tables.{SourceStatus, ok, find_source}
use assistant_memory.Partition.Fence.{assert_source_identities_active, assert_live_source_parents}
use assistant_memory.Sources.Rows.{Upload, uploading, uploaded, find_first}
use assistant_memory.Sources.Uploads.{Blob, Blobs, is_accepted}
use assistant_memory.Sources.Uploads.Put.{
  Put, Revision, acknowledged, check_put, put_source_blob_with_fence, put_source, accept_operation,
  replace_revision,
}
use assistant_memory.Sources.Uploads.Accepted.{put-accepts}
use assistant_memory.Tests.Partition.{a_source, tables}
use assistant_memory.Tests.Processing.{receipt}

abbrev file : Blob
file = record { user_id = 1; source_id = 7; partition_key = some 4; type = 2; external_id = 70 }

abbrev revised : Revision
revised = record {
  status = SourceStatus.pending;
  ingestion_revision_hash = some 66;
  parent_source = none;
  replace_derived_links = true;
  operation = some (70, 66);
}

abbrev put : Put
put = record {
  blob = file;
  root = none;
  revision = some revised;
  more = 0;
  reserved_at = some 900;
  operation_id = 101;
}

abbrev being_sent : Upload
being_sent = record {
  user_id = 1;
  source_id = 7;
  object_key = (1, 7);
  state = uploading;
  updated_at = 900;
  uploaded_at = none;
  cleanup_completed_at = none;
}

abbrev blobs : Blobs
blobs = record { tables = tables; uploads = being_sent ∷ []; operations = receipt ∷ [] }

abbrev replaced : Blobs
replaced = record {
  tables = record tables { sources = put_source put a_source ∷ [] };
  uploads = record being_sent { state = uploaded; uploaded_at = some 1000; updated_at = 1000 } ∷ [];
  operations = accept_operation 1000 put 4 (replace_revision put (receipt ∷ []));
}

puts : put_source_blob_with_fence 1000 put acknowledged blobs ≡ ok (replaced, true)
unfolding put_source_blob_with_fence check_put find_source find_first
    assert_source_identities_active assert_live_source_parents contains
puts = refl

put-accepts_example : is_accepted file (some 55) replaced.operations ≡ false
put-accepts_example = put-accepts 1000 put revised 55 blobs replaced true puts refl refl
