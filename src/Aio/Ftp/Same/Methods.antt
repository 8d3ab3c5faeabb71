-- ===== src/Aio/Ftp/Same/Methods.antt =====
-- `exists` and `scan` are alike, so the two clients cannot be told apart by their calls.
use gufo_blob.Base.{Bool, Text}
use gufo_blob.Base.Result.{◌>>=◌}
use gufo_blob.Blob.{Blob}
use gufo_blob.Ftp.Common.{FtpFeatures}
use gufo_blob.Ftp.Client.{FtpBlob, Ftp}
use gufo_blob.Ftp.Client
use gufo_blob.Ftp.Client.Transfer
use gufo_blob.Ftp.Client.Methods.{Yields}
use gufo_blob.Ftp.Client.Methods as Sync
use gufo_blob.Aio.Ftp.{AsyncFtpBlob, AsyncFtp}
use gufo_blob.Aio.Ftp as Async
use gufo_blob.Aio.Ftp.Transfer as AsyncTransfer
use gufo_blob.Aio.Ftp.Methods as Other

abbrev ask : FtpFeatures → Text → Ftp Bool
ask f key = Sync.exists_by_mlst f key >>= λ o. Sync.otherwise o (Sync.exists_by_scan key)

abbrev async_ask : FtpFeatures → Text → AsyncFtp Bool
async_ask f key = Other.exists_by_mlst f key >>= λ o. Other.otherwise o (Other.exists_by_scan key)

-- The methods of the two clients, as implementations of the interface.
abbrev pub ftp_blob : Blob
ftp_blob = record {
  State = FtpBlob;
  put = Transfer.put;
  get = Transfer.get;
  delete = Sync.delete;
  exists = Sync.exists;
  scan = Sync.scan;
}

abbrev pub async_ftp_blob : Blob
async_ftp_blob = record {
  State = AsyncFtpBlob;
  put = AsyncTransfer.put;
  get = AsyncTransfer.get;
  delete = Other.delete;
  exists = Other.exists;
  scan = Other.scan;
}
