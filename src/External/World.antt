-- ===== src/External/World.antt =====
-- All that the program takes from outside, in one parameter, and the laws of all of it.
use go_nfsd.External.Common.{Common, CommonLaws, Util, UtilLaws}
use go_nfsd.External.Journal.{Journal, JournalLaws}
use go_nfsd.External.Marshal.{Marshal, MarshalLaws}
use go_nfsd.External.Lockmap.{Lockmap, LockmapLaws}
use go_nfsd.External.Alloc.{Allocator, AllocatorLaws}

pub record World : Type 1 where
  pub common : Common
  pub open common use *
  pub util : Util
  pub open util use *
  pub journal : Journal
  pub open journal use *
  pub marshal : Marshal
  pub open marshal use *
  pub lockmap : Lockmap
  pub open lockmap use *
  pub allocator : Allocator
  pub open allocator use *

pub record WorldLaws (W : World) : Type 0 where
  pub common : CommonLaws W.common
  pub open common use *
  pub util : UtilLaws W.util
  pub open util use *
  pub journal : JournalLaws W.journal
  pub open journal use *
  pub marshal : MarshalLaws W.marshal
  pub open marshal use *
  pub lockmap : LockmapLaws W.lockmap
  pub open lockmap use *
  pub allocator : AllocatorLaws W.allocator
  pub open allocator use *
